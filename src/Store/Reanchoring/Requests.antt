-- ===== src/Store/Reanchoring/Requests.antt =====
-- comments.rs: commands of clients and reanchoring by `reanchor_review`, in any order.
use nits.Prelude.{
  ℕ, ◌≡◌, ◌≢◌, ◌⊎◌, sym, ap, ◌∙◌, Bool, true, false, some, List, [], ◌∷◌, ok, err, arith, inl, inr,
  nat_eq, pair_eq,
}
use nits.Prelude.Maps.{get}
use nits.Protocol.Domain.{Text}
use nits.Protocol.Author.{Author}
use nits.Protocol.Changes.{ResolvedTarget}
use nits.Review.Anchor.{Hunk}
use nits.Store.Events.{Comment}
use nits.Store.Views.{Tables, is_deleted}
use nits.Store.Log.{Store}
use nits.Store.Core.{Git, Ctx}
use nits.Store.Comments.{Ulid, is_browse}
use nits.Store.Comments.Rules.{Command}
use nits.Store.Comments.Commands.{run}
use nits.Store.Reanchoring.{Trees, reanchor_review}
use nits.Store.Reanchoring.Moves.{OnlyMoved}

-- A command, or the reanchoring of a review whose targets were `old` and are `new`.
pub data Request : Type 0 where
  commands : Command → Request
  reanchors : (r : ℕ) (old new : List ResolvedTarget) → Request

-- No command is from this author.
abbrev pub Others : Author → List (Ctx × Request) → Type 0
Others who [] = Unit
Others who (d ∷ ds) =
    (elim d.1 [ commands _ ↦ d.0.author ≢ who | reanchors _ _ _ ↦ Unit ]) × Others who ds

-- No request reanchors this review.
abbrev pub Rests : ℕ → List (Ctx × Request) → Type 0
Rests r [] = Unit
Rests r (d ∷ ds) = (elim d.1 [ commands _ ↦ Unit | reanchors q _ _ ↦ r ≢ q ]) × Rests r ds

-- The run leaves the comment where it is.
abbrev pub Stays : ℕ → Comment → List (Ctx × Request) → Type 0
Stays r x ds = Rests r ds ⊎ ((is_browse x.context ≡ true) ⊎ (is_deleted x.state ≡ true))

pub Stays-now :
    (r : ℕ) (x : Comment) (d : Ctx × Request) (ds : List (Ctx × Request))
    → Stays r x (d ∷ ds)
    → Stays r x (d ∷ [])
Stays-now r x d ds (inl w) = inl (w.0, tt)
Stays-now r x d ds (inr w) = inr w

pub Stays-later :
    (r : ℕ) (x y : Comment) (d : Ctx × Request) (ds : List (Ctx × Request))
    → y.context ≡ x.context
    → is_deleted y.state ≡ is_deleted x.state
    → Stays r x (d ∷ ds)
    → Stays r y ds
Stays-later r x y d ds c del (inl w) = inl w.1
Stays-later r x y d ds c del (inr (inl b)) = inr (inl (ap is_browse c ∙ b))
Stays-later r x y d ds c del (inr (inr b)) = inr (inr (del ∙ b))

-- What is left of a comment: all but anchor and state, whether it is deleted, and under a condition
-- the whole of it.
abbrev pub Left : Comment → Tables → ℕ → ℕ → Type 0 → Type 0
Left x t r c Whole =
    (y : Comment) × (get (r, c) t.comments ≡ some y)
    × OnlyMoved x y
    × (is_deleted y.state ≡ is_deleted x.state)
    × (Whole → y ≡ x)

-- The same comment: its author, its thread, what it is, when and in what view it was made.
abbrev pub SameMaker : Comment → Comment → Type 0
SameMaker x y =
    (y.author ≡ x.author)
    × (y.thread_id ≡ x.thread_id)
    × (y.kind ≡ x.kind)
    × (y.created ≡ x.created)
    × (y.context ≡ x.context)

pub OnlyMoved-SameMaker : (x y : Comment) → OnlyMoved x y → SameMaker x y
OnlyMoved-SameMaker x y o = (
  ap (λ (v : Comment). v.author) o,
  ap (λ (v : Comment). v.thread_id) o,
  ap (λ (v : Comment). v.kind) o,
  ap (λ (v : Comment). v.created) o,
  ap (λ (v : Comment). v.context) o,
)

pub SameMaker-trans : (x y z : Comment) → SameMaker x y → SameMaker y z → SameMaker x z
SameMaker-trans x y z (a, b, c, d, e) (a', b', c', d', e') =
    (a' ∙ a, b' ∙ b, c' ∙ c, d' ∙ d, e' ∙ e)

pub OnlyMoved-trans : (x y z : Comment) → OnlyMoved x y → OnlyMoved y z → OnlyMoved x z
OnlyMoved-trans x y z o o' =
    o' ∙ ap (λ (v : Comment). record v { anchor = z.anchor; state = z.state }) o

pub unless_own :
    (ctx : Ctx) (x y : Comment)
    → (ctx.author ≢ x.author) ⊎ (is_deleted x.state ≡ true)
    → (y ≡ x) ⊎ ((is_deleted x.state ≡ false) × (x.author ≡ ctx.author))
    → y ≡ x
unless_own ctx x y others (inl e) = e
unless_own ctx x y (inl other) (inr (live, own)) = absurd (other (sym own))
unless_own ctx x y (inr gone) (inr (live, own)) = absurd (ground (arith, live, gone))

module _ {G : Type 0} (current_schema : ℕ) (git : Git G) (ulid : Ulid) (trees : Trees G)
    (diff : List Text → List Text → List Hunk) (hash : List Text → ℕ)
    (from_utf8_lossy : List ℕ → Text) (is_whitespace : ℕ → Bool) where
  unfoldable pub serve : Ctx → Request → Store → Store
  unfolding run reanchor_review
  serve ctx (commands k) s =
      elim (run current_schema git ulid hash from_utf8_lossy is_whitespace ctx k s) [
        | ok x ↦ x.1
        | err e ↦ s
      ]
  serve ctx (reanchors r old new) s =
      (reanchor_review current_schema git trees diff hash from_utf8_lossy is_whitespace ctx r old
        new s).1

  unfoldable pub serve_all : List (Ctx × Request) → Store → Store
  unfolding serve
  serve_all [] s = s
  serve_all (d ∷ ds) s = serve_all ds (serve d.0 d.1 s)
