-- ===== src/Store/Comments/Sound.antt =====
-- comments.rs: no operation on comments or threads meets an event that the views refuse.
use mathlib.Core.Path.{subst}
use nits.Prelude.{
  ◌⊎◌, ℕ, ◌≡◌, refl, some, [], ◌∷◌, All, arith, inl, inr, Result, ok, err, false, ◌>>=◌, nat_eq,
  pair_eq, Option-cases, Bool-cases,
}
use nits.Prelude.Maps.{get}
use nits.Store.Events.{Comment, Thread, Event, EventBody}
use nits.Store.Views.{is_deleted, Tables}
use nits.Store.Views.Apply.{apply_body, apply}
use nits.Store.Log.{Store, find_comment, find_review, of_review, threads, coming_seq, sequenced}
use nits.Store.Log
use nits.Store.Consistent.{IsConsistent, Threads, KeyOf}
use nits.Store.Consistent.Writes.{Kept}
use nits.Store.Comments.Rules.{Command, Allowed}
use nits.Store.Consistent.Events.{IsFresh, apply_body-Kept}
use nits.Store.Core.{
  CoreError, Ctx, not_found, comment_entity, thread_entity, store_error, append, comment, thread,
  thread_of, undeleted, new_event,
}

-- The store refused nothing: the error, if any, is one of validation.
abbrev pub Clean {ℓ} : {A : Type ℓ} {G : Type 0} → Result A (CoreError G) → Type 0
Clean (ok _) = Unit
Clean (err e) = elim e [ store_error _ ↦ ⊥ | _ ↦ Unit ]

-- The views follow from those of `s` by an event that the command allows the caller.
abbrev pub Follows : Ctx → Command → Tables → Tables → Type 0
Follows ctx k t t' =
    (b : EventBody) × (e : Event) × Allowed ctx k t b
    × (e.author ≡ ctx.author)
    × (e.ts ≡ ctx.now)
    × (apply_body t e b ≡ ok t')

-- A result is consistent and follows; an error is one of validation.
abbrev pub Sound {ℓ} :
    {A : Type ℓ} {G : Type 0} → Ctx → Command → Store → Result (A × Store) (CoreError G) → Type 0
Sound ctx k s (ok (_, s')) = IsConsistent s'.views × Follows ctx k s.views s'.views
Sound ctx k s (err e) = elim e [ store_error _ ↦ ⊥ | _ ↦ Unit ]

abbrev pub IsOk {ℓ κ} : {A : Type ℓ} {E : Type κ} → Result A E → Type 0
IsOk (ok _) = Unit
IsOk (err _) = ⊥

abbrev pub Applies : Tables → EventBody → Type 0
Applies t b = (e : Event) → IsOk (apply_body t e b)

IsOk-ok {ℓ κ} : {A : Type ℓ} {E : Type κ} (m : Result A E) → IsOk m → (a : A) × (m ≡ ok a)
IsOk-ok (ok a) h = (a, refl)
IsOk-ok (err e) h = absurd h

pub append-Sound :
    (G : Type 0) {A : Type 0} (current_schema : ℕ) (ctx : Ctx) (k : Command) (b : EventBody)
    (s : Store) (v : A)
    → IsConsistent s.views
    → IsFresh s.views b
    → Applies s.views b
    → Allowed ctx k s.views b
    → Sound {G = G} ctx k s (append current_schema ctx b s >>= λ r. ok (v, r.1))
unfolding append Log.append apply sequenced
append-Sound G current_schema ctx k b s v h f a w =
    let event = sequenced (coming_seq s) (new_event ctx b) in
    let (t', q) = IsOk-ok (apply_body s.views event b) (a event) in
    let kept = apply_body-Kept s.views event h b f in
    rw q (subst Kept q kept, (b, event, w, refl, refl, q))

-- Searching the threads of a review by id is looking them up.
pub thread_of-get :
    (r h : ℕ) (ths : Threads) → All KeyOf ths → thread_of h (of_review r ths) ≡ get (r, h) ths
unfolding thread_of of_review get
thread_of-get r h [] a = refl
thread_of-get r h ((k, v) ∷ ths) a = ground (arith, a.0, thread_of-get r h ths a.1)

module _ {G : Type 0} (r : ℕ) (s : Store) (h : IsConsistent s.views) where
  pub thread_cases :
      (th : ℕ)
      → (thread {G = G} r th s ≡ err (not_found thread_entity th))
        ⊎ ((x : Thread) × (thread {G = G} r th s ≡ ok x) × (get (r, th) s.views.threads ≡ some x))
  unfolding thread threads
  thread_cases th = elim (Option-cases (get (r, th) s.views.threads)) [
    | inl q ↦ inl (rw (thread_of-get r th s.views.threads h.thread_keys, q) refl)
    | inr (x, q) ↦ inr (x, rw (thread_of-get r th s.views.threads h.thread_keys, q) refl, q)
  ]

  pub comment_cases :
      (c : ℕ)
      → (comment {G = G} r c s ≡ err (not_found comment_entity c))
        ⊎ ((x : Comment) × (comment {G = G} r c s ≡ ok x)
            × (get (r, c) s.views.comments ≡ some x)
            × (is_deleted x.state ≡ false))
  unfolding comment undeleted find_comment
  comment_cases c = elim (Option-cases (get (r, c) s.views.comments)) [
    | inl q ↦ inl (rw q refl)
    | inr (x, q) ↦ elim (Bool-cases (is_deleted x.state)) [
      | inl b ↦ inl (rw (q, b) refl)
      | inr b ↦ inr (x, rw (q, b) refl, q, b)
    ]
  ]
