-- ===== src/Store/Consistent.antt =====
-- store/views.rs: what the reviews, comments and threads of the views promise each other.
pub mod Steps
pub mod Writes
pub mod Events
use mathlib.Core.Path.{subst}
use nits.Prelude.{
  ◌⊎◌, ◌&&◌, ℕ, ◌≡◌, sym, ap, ◌∙◌, true, none, some, List, [], ◌∷◌, All, arith, inl, inr, nat_eq,
  pair_eq, ◌==◌, Bool-cases,
}
use nits.Prelude.Maps.{
  IsMap, get, insert, remove, contains, get-insert_cases, get-insert_keeps, get-insert_self,
}
use nits.Store.Events.{Comment, Thread}
use nits.Store.Views.{ReviewRecord, Tables}

abbrev pub Comments : Type 0
Comments = List ((ℕ × ℕ) × Comment)

abbrev pub Threads : Type 0
Threads = List ((ℕ × ℕ) × Thread)

-- Comment `c` of review `r` is there and belongs to thread `h`.
abbrev pub Known : Comments → ℕ → ℕ → ℕ → Type 0
Known cs r h c = (x : Comment) × (get (r, c) cs ≡ some x) × (x.thread_id ≡ h)

-- Comment `c` is the root or a reply of the thread.
abbrev pub Member : ℕ → Thread → Type 0
Member c th = contains c (th.root ∷ th.replies) ≡ true

abbrev pub KeyOf : (ℕ × ℕ) × Thread → Type 0
KeyOf e = (e.1.review_id ≡ e.0.0) × (e.1.id ≡ e.0.1)

abbrev pub IsThread : Comments → ℕ → ℕ → Thread → Type 0
IsThread cs r h th = (th.root ≡ h) × All (Known cs r h) (th.root ∷ th.replies)

pub record Consistent (rs : List (ℕ × ReviewRecord)) (cs : Comments) (ths : Threads) : Type 0 where
  pub comment_map : IsMap cs
  -- Reviews, comments and threads stand under their own ids.
  pub review_keys : (r : ℕ) (rec : ReviewRecord) → get r rs ≡ some rec → rec.review.id ≡ r
  pub comment_keys :
      (r c : ℕ) (x : Comment) → get (r, c) cs ≡ some x → (x.review_id ≡ r) × (x.id ≡ c)
  pub thread_keys : All KeyOf ths
  -- A comment is the root or a reply of its thread.
  pub placed :
      (r c : ℕ) (x : Comment)
      → get (r, c) cs ≡ some x
      → (th : Thread) × (get (r, x.thread_id) ths ≡ some th) × Member c th
  -- A thread has its root and its replies, and belongs to a review.
  pub members : (r h : ℕ) (th : Thread) → get (r, h) ths ≡ some th → IsThread cs r h th
  pub owned :
      (r h : ℕ) (th : Thread)
      → get (r, h) ths ≡ some th
      → (rec : ReviewRecord) × (get r rs ≡ some rec)

abbrev pub IsConsistent : Tables → Type 0
IsConsistent t = Consistent t.reviews t.comments t.threads

pub All-remove {ℓ κ} :
    {A : Type ℓ} (P : (ℕ × ℕ) × A → Type κ) (k : ℕ × ℕ) (m : List ((ℕ × ℕ) × A))
    → All P m
    → All P (remove k m)
unfolding remove
All-remove P k [] h = h
All-remove P k ((j, v) ∷ m) h = elim (Bool-cases ((j.0 == k.0) && (j.1 == k.1))) [
  | inl q ↦ rw q (All-remove P k m h.1)
  | inr q ↦ rw q (h.0, All-remove P k m h.1)
]

pub triple_eq : {a b c d e f : ℕ} → a ≡ d → b ≡ e → c ≡ f → ◌≡◌ {A = ℕ × ℕ × ℕ} (a, b, c) (d, e, f)
triple_eq p q r = ground (arith, p, q, r)

module _ {V : Type 0} where
  -- Tables whose key is a review and an id in it.
  pub pair_cases :
      (r c j d : ℕ) (v w : V) (m : List ((ℕ × ℕ) × V))
      → get (j, d) (insert (r, c) v m) ≡ some w
      → ((r ≡ j) × (c ≡ d) × (v ≡ w)) ⊎ (get (j, d) m ≡ some w)
  pair_cases r c j d v w m h = elim (get-insert_cases (r, c) (j, d) v w m h) [
    | inl (a, b) ↦ inl (ap (λ x. x.0) a, ap (λ x. x.1) a, b)
    | inr (a, b) ↦ inr b
  ]

  pub pair_keeps :
      (P : V → Type 0) (r c j d : ℕ) (v w : V) (m : List ((ℕ × ℕ) × V))
      → get (j, d) m ≡ some w
      → P w
      → (r ≡ j → c ≡ d → P v)
      → (x : V) × (get (j, d) (insert (r, c) v m) ≡ some x) × P x
  pair_keeps P r c j d v w m h p q =
      get-insert_keeps P (r, c) (j, d) v w m h p (λ e. q (ap (λ x. x.0) e) (ap (λ x. x.1) e))
