-- ===== src/Daemon/Admission/Runs.antt =====
-- admission.rs: any interleaving of the calls of tasks, with the permits that are out.
use nits.Prelude.{
  Result, ℕ, ◌%◌, zero, suc, ◌+◌, ◌≤◌, ◌<◌, ◌≡◌, refl, inl, inr, arith, false, true, ◌==◌, none,
  some, List, [], ◌∷◌, length, ok, err, Option-cases,
}
use nits.Daemon.Admission.{
  Admission, Restarting, restarting, usize_mod, new, accept, release, close, subscribe, is_drained,
}

-- What a task may call.
pub data Call (Op : Type 0) : Type 0 where
  accept_call drop_call : Call Op
  close_call : Op → Call Op

module _ {Op : Type 0} where
  accept_open :
      (a : Admission Op)
      → a.operation ≡ none
      → accept a ≡ (ok tt, record a { active = (a.active + 1) % usize_mod })
  unfolding accept
  accept_open a h = ground (arith, h)

  accept_shut :
      (a : Admission Op) (op : Op) → a.operation ≡ some op → accept a ≡ (err (restarting op), a)
  unfolding accept
  accept_shut a op h = ground (arith, h)

  close_open :
      (a : Admission Op) (op : Op)
      → a.operation ≡ none
      → close op a ≡ ((op, true), record a { operation = some op; lifecycle = some op })
  unfolding close
  close_open a op h = rw (close, h) refl

  close_shut :
      (a : Admission Op) (op current : Op)
      → a.operation ≡ some current
      → close op a ≡ ((current, false), a)
  unfolding close
  close_shut a op current h = ground (arith, h)

  -- What a task holds after it asked for a permit.
  unfoldable pub admit : Result {0, 0} Unit (Restarting Op) × Admission Op → ℕ → Admission Op × ℕ
  admit (ok _, a) n = (a, suc n)
  admit (err _, a) n = (a, n)

  -- A call with the number of permits that are out; only a task that has one can drop it.
  unfoldable pub step : Call Op → Admission Op × ℕ → Admission Op × ℕ
  unfolding admit accept release close
  step accept_call (a, n) = admit (accept a) n
  step drop_call (a, zero) = (a, zero)
  step drop_call (a, suc n) = (release a, n)
  step (close_call op) (a, n) = ((close op a).1, n)

  unfoldable pub run : List (Call Op) → Admission Op × ℕ → Admission Op × ℕ
  unfolding step
  run [] s = s
  run (c ∷ cs) s = run cs (step c s)

  -- The count is the permits that are out, and the watchers see the operation of the gate.
  pub record IsExact (s : Admission Op × ℕ) : Type 0 where
    pub counts : s.0.active ≡ s.1
    pub shows : subscribe s.0 ≡ s.0.operation

  step-IsExact :
      (c : Call Op) (s : Admission Op × ℕ)
      → IsExact s
      → s.1 + 1 < usize_mod
      → IsExact (step c s) × ((step c s).1 ≤ s.1 + 1)
  unfolding step admit release subscribe
  step-IsExact accept_call (a, n) x h = elim (Option-cases a.operation) [
    | inl opened ↦
        rw (accept_open a opened)
          ((record { counts = omega (arith, x.counts); shows = x.shows }, omega arith))
    | inr (op, shut) ↦
        rw (accept_shut a op shut) ((record { counts = x.counts; shows = x.shows }, omega arith))
  ]
  step-IsExact drop_call (a, zero) x h = (x, omega arith)
  step-IsExact drop_call (a, suc n) x h =
      (record { counts = omega (arith, x.counts); shows = x.shows }, omega arith)
  step-IsExact (close_call op) (a, n) x h = elim (Option-cases a.operation) [
    | inl opened ↦
        rw (close_open a op opened) ((record { counts = x.counts; shows = refl }, omega arith))
    | inr (current, shut) ↦
        rw (close_shut a op current shut)
          ((record { counts = x.counts; shows = x.shows }, omega arith))
  ]

  run-IsExact :
      (cs : List (Call Op)) (s : Admission Op × ℕ)
      → IsExact s
      → s.1 + length cs < usize_mod
      → IsExact (run cs s)
  unfolding run
  run-IsExact [] s x h = x
  run-IsExact (c ∷ cs) s x h =
      let (y, few) = step-IsExact c s x (omega arith) in run-IsExact cs (step c s) y (omega arith)

  -- From a new gate, whatever calls tasks make, in any order: the waiting upgrade sees the gate
  -- drained exactly when no permit is out, and watchers see the operation that closed it. There
  -- must be fewer than 2^64 calls.
  pub is_drained-run :
      (cs : List (Call Op))
      → length cs < usize_mod
      → let (a, permits) = run cs (new, 0) in
        (is_drained a ≡ (permits == 0)) × (subscribe a ≡ a.operation)
  unfolding is_drained
  is_drained-run cs h =
      let start : IsExact ((new {Op = Op}, 0)) =
        unfold new subscribe in record { counts = refl; shows = refl } in
      let x = run-IsExact cs (new, 0) start (omega arith) in (rw x.counts refl, x.shows)

  -- The gate is closed by this operation, no more permits are out than before, and all are counted.
  abbrev pub StaysClosed : Op → ℕ → Admission Op × ℕ → Type 0
  StaysClosed op n s = (s.0.operation ≡ some op) × (s.1 ≤ n) × (s.0.active ≡ s.1)

  step-StaysClosed :
      (c : Call Op) (op : Op) (n : ℕ) (s : Admission Op × ℕ)
      → n < usize_mod
      → StaysClosed op n s
      → StaysClosed op n (step c s)
  unfolding step admit release
  step-StaysClosed accept_call op n (a, k) few h = rw (accept_shut a op h.0) h
  step-StaysClosed drop_call op n (a, zero) few h = h
  step-StaysClosed drop_call op n (a, suc k) few h =
      (h.0, omega (arith, h.1), omega (arith, h.1, h.2))
  step-StaysClosed (close_call other) op n (a, k) few h = rw (close_shut a other op h.0) h

  stays :
      (cs : List (Call Op)) (op : Op) (n : ℕ) (s : Admission Op × ℕ)
      → n < usize_mod
      → StaysClosed op n s
      → StaysClosed op n (run cs s)
  unfolding run
  stays [] op n s few h = h
  stays (c ∷ cs) op n s few h = stays cs op n (step c s) few (step-StaysClosed c op n s few h)

  run_closed :
      (cs : List (Call Op)) (op : Op) (a : Admission Op) (n : ℕ)
      → a.active ≡ n
      → n < usize_mod
      → StaysClosed (close op a).0.0 n (run cs ((close op a).1, n))
  run_closed cs op a n counts few = elim (Option-cases a.operation) [
    | inl opened ↦ rw (close_open a op opened) (
        stays cs op n (record a { operation = some op; lifecycle = some op }, n) few
          ((refl, omega arith, counts)))
    | inr (current, shut) ↦
        rw (close_shut a op current shut)
          (stays cs current n (a, n) few ((shut, omega arith, counts)))
  ]

  -- Once the gate is closed, no later call, in any order, opens it or changes the owner that `close`
  -- returned; the count of work stays that of the permits out, which never grow; and at whatever
  -- point of the run the upgrade sees the gate drained, it is drained after all later calls too.
  -- Before the close the count must be that of the permits out, fewer than 2^64.
  pub run-StaysClosed :
      (cs ds : List (Call Op)) (op : Op) (a : Admission Op) (n : ℕ)
      → a.active ≡ n
      → n < usize_mod
      → let owner = (close op a).0.0 in
        let s = run cs ((close op a).1, n) in
        let later = run ds s in
        StaysClosed owner n s
        × StaysClosed owner s.1 later
        × (is_drained s.0 ≡ true → is_drained later.0 ≡ true)
  unfolding is_drained
  run-StaysClosed cs ds op a n counts few =
      let s = run cs ((close op a).1, n) in
      let closed = run_closed cs op a n counts few in
      let after =
        stays ds (close op a).0.0 s.1 s (omega (arith, closed.1, few))
          ((closed.0, omega arith, closed.2)) in
      (closed, after, λ drained. ground (arith, closed.2, after.1, after.2, drained))
