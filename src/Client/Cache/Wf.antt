-- ===== src/Client/Cache/Wf.antt =====
-- cache.rs: the bookkeeping of the cache stays right under every operation.
use mathlib.Core.Path.{subst}
use nits.Prelude.{
  sym, ℕ, ◌+◌, ◌<◌, ◌≤◌, ◌≡◌, ◌≢◌, refl, none, some, ◌==◌, Eq, nat_eq, arith, ==_iff, Bool-cases,
  Option-cases, inl, inr,
}
use nits.Prelude.Maps
use nits.Prelude.Maps.{
  IsSorted, remove-IsSorted, btree_insert-IsSorted, total-insert, insert-remove, contains, retain,
  btree_insert, IsMap, total, get-remove, get-insert, get-btree_insert, total-remove, remove-IsMap,
  insert-IsMap, measure_of,
}
use nits.Client.Cache.{
  get, replace_old, add64, sub64, add64, Entry, ContentCache, u64_mod, detach, touch,
}

abbrev pub size_of : {V : Type 0} → Entry V → ℕ
size_of x = x.size

module _ {K V : Type 0} ⦃e : Eq K⦄ where
  -- The recency order and the entries name each other, no tick is from the future, the byte
  -- count is the sum of the sizes, and no key stands twice.
  pub record IsWf (c : ContentCache K V) : Type 0 where
    pub distinct : IsMap c.entries
    pub sorted : IsSorted c.order
    pub ordered :
        (t : ℕ) (k : K)
        → Maps.get t c.order ≡ some k
        → (x : Entry V) × (Maps.get k c.entries ≡ some x) × (x.tick ≡ t)
    pub listed :
        (k : K) (x : Entry V) → Maps.get k c.entries ≡ some x → Maps.get x.tick c.order ≡ some k
    pub past : (k : K) (x : Entry V) → Maps.get k c.entries ≡ some x → x.tick < c.next_tick
    pub counted : c.used ≡ total size_of c.entries
    pub in_u64 : (c.used < u64_mod) × (c.next_tick < u64_mod)

  module _ (k : K) (x : Entry V) (c : ContentCache K V) (w : IsWf c)
      (at : Maps.get k c.entries ≡ some x) where
    -- The entry's size is part of the byte count.
    pub size-le-used : x.size ≤ c.used
    size-le-used = ground (arith, w.counted, total-remove size_of k c.entries w.distinct, at)

    still_ordered :
        (t : ℕ) (j : K)
        → Maps.get t (Maps.remove x.tick c.order) ≡ some j
        → (y : Entry V) × (Maps.get j (Maps.remove k c.entries) ≡ some y) × (y.tick ≡ t)
    still_ordered t j h =
        let kept : (Maps.get t c.order ≡ some j) × (x.tick ≢ t) =
          ground (arith, get-remove x.tick t c.order) in
        let (y, there, tick) = w.ordered t j kept.0 in
        (y, ground (arith, get-remove k j c.entries, e.beq_iff k j, kept.1), tick)

    still_listed :
        (j : K) (y : Entry V)
        → Maps.get j (Maps.remove k c.entries) ≡ some y
        → Maps.get y.tick (Maps.remove x.tick c.order) ≡ some j
    still_listed j y h =
        let kept : (Maps.get j c.entries ≡ some y) × (k ≢ j) =
          ground (arith, get-remove k j c.entries, e.beq_iff k j) in
        ground
          (arith, get-remove x.tick y.tick c.order, w.listed j y kept.0, w.listed k x at, kept.1)

    pub detach-IsWf : IsWf (detach k x c)
    unfolding detach
    detach-IsWf = record {
      distinct = remove-IsMap k c.entries w.distinct;
      sorted = remove-IsSorted x.tick c.order w.sorted;
      ordered = still_ordered;
      listed = still_listed;
      past = λ j y h. ground (arith, get-remove k j c.entries, w.past j y);
      counted =
          ground (arith, w.counted, total-remove size_of k c.entries w.distinct, at, w.in_u64);
      in_u64 = (ground arith, w.in_u64.1);
    }

  -- A new entry, at the tick that the cache hands out next.
  unfoldable pub attach : K → Entry V → ContentCache K V → ContentCache K V
  attach k y c = record c {
    used = add64 c.used y.size;
    entries = Maps.insert k y c.entries;
    order = btree_insert y.tick k c.order;
    next_tick = add64 c.next_tick 1;
  }

  module _ (k : K) (y : Entry V) (c : ContentCache K V) (w : IsWf c)
      (absent : Maps.get k c.entries ≡ none) (now : y.tick ≡ c.next_tick)
      (room : c.used + y.size < u64_mod) (ticks : c.next_tick + 1 < u64_mod) where
    attached_ordered :
        (t : ℕ) (j : K)
        → Maps.get t (btree_insert y.tick k c.order) ≡ some j
        → (z : Entry V) × (Maps.get j (Maps.insert k y c.entries) ≡ some z) × (z.tick ≡ t)
    attached_ordered t j h = elim (Bool-cases (y.tick == t)) [
      | inl here ↦ (
        y,
        ground
            (arith, get-btree_insert y.tick t k c.order, get-insert k j y c.entries, e.beq_iff k j),
        (==_iff y.tick t).0 here,
      )
      | inr away ↦
          let (z, there, tick) =
            w.ordered t j (ground (arith, get-btree_insert y.tick t k c.order)) in
          (z, ground (arith, get-insert k j y c.entries, e.beq_iff k j, absent), tick)
    ]

    attached_listed :
        (j : K) (z : Entry V)
        → Maps.get j (Maps.insert k y c.entries) ≡ some z
        → Maps.get z.tick (btree_insert y.tick k c.order) ≡ some j
    attached_listed j z h = elim (Bool-cases (e.beq k j)) [
      | inl here ↦ ground (
        arith,
        get-btree_insert y.tick z.tick k c.order,
        get-insert k j y c.entries,
        e.beq_iff k j,
      )
      | inr away ↦
          let old : Maps.get j c.entries ≡ some z = ground (arith, get-insert k j y c.entries) in
          ground (arith, get-btree_insert y.tick z.tick k c.order, w.listed j z old, w.past j z old)
    ]

    pub attach-IsWf : IsWf (attach k y c)
    unfolding attach
    attach-IsWf = record {
      distinct = insert-IsMap k y c.entries w.distinct;
      sorted = btree_insert-IsSorted y.tick k c.order w.sorted;
      ordered = attached_ordered;
      listed = attached_listed;
      past = λ j z h. ground (arith, get-insert k j y c.entries, w.past j z);
      counted = ground (arith, w.counted, total-insert size_of k y c.entries w.distinct, absent);
      in_u64 = (ground arith, ground arith);
    }

  touch-eq-attach :
      (k : K) (x : Entry V) (c : ContentCache K V)
      → IsWf c
      → Maps.get k c.entries ≡ some x
      → touch k x c.next_tick (record c { next_tick = add64 c.next_tick 1 })
        ≡ attach k (record x { tick = c.next_tick }) (detach k x c)
  unfolding touch attach detach
  touch-eq-attach k x c w at =
      let used_back : c.used ≡ add64 (sub64 c.used x.size) x.size =
        omega (arith, size-le-used k x c w at, w.in_u64) in
      λ i. record c {
        used = used_back i;
        entries = sym (insert-remove k (record x { tick = c.next_tick }) c.entries) i;
        order = btree_insert c.next_tick k (Maps.remove x.tick c.order);
        next_tick = add64 c.next_tick 1;
      }

  pub touch-IsWf :
      (k : K) (x : Entry V) (c : ContentCache K V)
      → IsWf c
      → Maps.get k c.entries ≡ some x
      → c.next_tick + 1 < u64_mod
      → IsWf (touch k x c.next_tick (record c { next_tick = add64 c.next_tick 1 }))
  touch-IsWf k x c w at ticks = subst IsWf (sym (touch-eq-attach k x c w at)) (
      attach-IsWf k (record x { tick = c.next_tick }) (detach k x c) (detach-IsWf k x c w at)
        (unfold detach in ground (arith, get-remove k k c.entries, e.beq_iff k k))
        (unfold detach in refl) (unfold detach in omega (arith, size-le-used k x c w at, w.in_u64))
        (unfold detach in ticks))

  pub bump-IsWf :
      (c : ContentCache K V)
      → IsWf c
      → c.next_tick + 1 < u64_mod
      → IsWf (record c { next_tick = add64 c.next_tick 1 })
  bump-IsWf c w ticks = record {
    distinct = w.distinct;
    sorted = w.sorted;
    ordered = w.ordered;
    listed = w.listed;
    past = λ j y h. ground (arith, w.past j y h);
    counted = w.counted;
    in_u64 = (w.in_u64.0, ground arith);
  }

  pub get-IsWf :
      (k : K) (c : ContentCache K V) → IsWf c → c.next_tick + 1 < u64_mod → IsWf (get k c).1
  unfolding get
  get-IsWf k c w ticks = elim (Option-cases (Maps.get k c.entries)) [
    | inl miss ↦ rw (miss, get) (bump-IsWf c w ticks)
    | inr (x, hit) ↦ rw (hit, get) (touch-IsWf k x c w hit ticks)
  ]

  pub replace_old-IsWf : (k : K) (c : ContentCache K V) → IsWf c → IsWf (replace_old k c)
  unfolding replace_old
  replace_old-IsWf k c w = elim (Option-cases (Maps.get k c.entries)) [
    | inl miss ↦ rw (miss, replace_old) w
    | inr (x, hit) ↦ rw (hit, replace_old) (detach-IsWf k x c w hit)
  ]

  pub replace_old-absent :
      (k : K) (c : ContentCache K V) → Maps.get k (replace_old k c).entries ≡ none
  unfolding replace_old
  replace_old-absent k c = elim (Option-cases (Maps.get k c.entries)) [
    | inl miss ↦ rw (miss, replace_old) miss
    | inr (x, hit) ↦ rw (hit, replace_old) (ground (arith, get-remove k k c.entries, e.beq_iff k k))
  ]
