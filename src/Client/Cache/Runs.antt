-- ===== src/Client/Cache/Runs.antt =====
-- cache.rs: any sequence of calls, from a new cache.
use nits.Prelude.{ℕ, ◌+◌, ◌<◌, ◌≤◌, Bool, not, List, [], ◌∷◌, Eq, nat_eq, arith}
use nits.Prelude.Maps.{retain}
use nits.Client.Cache.{
  length, ContentCache, u64_mod, new, get, insert, remove, pin, unpin, retain_pins, clear_pins,
}
use nits.Client.Cache.Wf.{get-IsWf, IsWf}
use nits.Client.Cache.Evict.{evict-Evicts}
use nits.Client.Cache.Ops.{
  new-IsWf, repin-IsWf, insert-Evicts, remove-IsWf, get-peek, get-next_tick, place_new_bounds,
  remove_bounds,
}

-- The operations of the cache, as a client calls them.
pub data Op (K V : Type 0) : Type 0 where
  get_op : K → Op K V
  insert_op : K → V → ℕ → Op K V
  remove_op pin_op unpin_op : K → Op K V
  retain_op : (K → Bool) → Op K V
  clear_op : Op K V

-- The bytes that an operation brings in.
abbrev pub bytes_of : {K V : Type 0} → Op K V → ℕ
bytes_of (insert_op _ _ size) = size
bytes_of _ = 0

abbrev pub total_bytes : {K V : Type 0} → List (Op K V) → ℕ
total_bytes [] = 0
total_bytes (o ∷ os) = bytes_of o + total_bytes os

module _ {K V : Type 0} ⦃e : Eq K⦄ where
  unfoldable pub apply : Op K V → ContentCache K V → ContentCache K V
  apply (get_op k) c = (get k c).1
  apply (insert_op k v size) c = (insert k v size c).1
  apply (remove_op k) c = (remove k c).1
  apply (pin_op k) c = pin k c
  apply (unpin_op k) c = unpin k c
  apply (retain_op keep) c = (retain_pins keep c).1
  apply clear_op c = (clear_pins c).1

  unfoldable pub apply_all : List (Op K V) → ContentCache K V → ContentCache K V
  unfolding apply
  apply_all [] c = c
  apply_all (o ∷ os) c = apply_all os (apply o c)

  -- One operation keeps the bookkeeping, spends at most one tick and adds at most its bytes.
  record Steps (o : Op K V) (c : ContentCache K V) : Type 0 where
    wf : IsWf (apply o c)
    ticks : (apply o c).next_tick ≤ c.next_tick + 1
    bytes : (apply o c).used ≤ c.used + bytes_of o

  apply-Steps :
      (o : Op K V) (c : ContentCache K V)
      → IsWf c
      → c.used + bytes_of o < u64_mod
      → c.next_tick + 1 < u64_mod
      → Steps o c
  unfolding apply pin unpin retain_pins clear_pins
  apply-Steps (get_op k) c w room ticks = record {
    wf = get-IsWf k c w ticks;
    ticks = omega (arith, get-next_tick k c);
    bytes = omega (arith, (get-peek k c).1);
  }
  apply-Steps (insert_op k v size) c w room ticks = record {
    wf = (insert-Evicts k v size c w room ticks).wf;
    ticks = omega (
      arith,
      (insert-Evicts k v size c w room ticks).settings.2,
      place_new_bounds k v size c w room,
    );
    bytes = omega (
      arith,
      (insert-Evicts k v size c w room ticks).conserved,
      place_new_bounds k v size c w room,
    );
  }
  apply-Steps (remove_op k) c w room ticks = record {
    wf = remove-IsWf k c w;
    ticks = omega (arith, remove_bounds k c w);
    bytes = omega (arith, remove_bounds k c w);
  }
  apply-Steps (pin_op k) c w room ticks = record {
    wf = repin-IsWf (k ∷ retain (λ j. not (e.beq j k)) c.pinned) c w;
    ticks = omega arith;
    bytes = omega arith;
  }
  apply-Steps (unpin_op k) c w room ticks = record {
    wf = repin-IsWf (retain (λ j. not (e.beq j k)) c.pinned) c w;
    ticks = omega arith;
    bytes = omega arith;
  }
  apply-Steps (retain_op keep) c w room ticks =
      let s =
        evict-Evicts (record c { pinned = retain keep c.pinned })
          (repin-IsWf (retain keep c.pinned) c w) in
      record { wf = s.wf; ticks = omega (arith, s.settings.2); bytes = omega (arith, s.conserved) }
  apply-Steps clear_op c w room ticks =
      let s = evict-Evicts (record c { pinned = [] }) (repin-IsWf [] c w) in
      record { wf = s.wf; ticks = omega (arith, s.settings.2); bytes = omega (arith, s.conserved) }

  reach-IsWf :
      (os : List (Op K V)) (c : ContentCache K V)
      → IsWf c
      → c.used + total_bytes os < u64_mod
      → c.next_tick + length os < u64_mod
      → IsWf (apply_all os c)
  unfolding apply_all
  reach-IsWf [] c w room ticks = w
  reach-IsWf (o ∷ os) c w room ticks =
      let s = apply-Steps o c w (omega arith) (omega arith) in
      reach-IsWf os (apply o c) s.wf (omega (arith, s.bytes)) (omega (arith, s.ticks))

  -- Whatever operations a client makes, in any order, the bookkeeping of the cache is right: the
  -- recency order and the entries name each other, ticks are unique and from the past, and the
  -- byte count is the sum of the sizes. The 64-bit counters must not overflow.
  pub apply_all-IsWf :
      (budget : ℕ) (os : List (Op K V))
      → total_bytes os < u64_mod
      → length os < u64_mod
      → IsWf (apply_all os (new budget))
  unfolding new
  apply_all-IsWf budget os room ticks =
      reach-IsWf os (new budget) (new-IsWf budget) (omega arith) (omega arith)
