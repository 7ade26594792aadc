-- ===== src/Client/Cache/Ops.antt =====
-- cache.rs: the operations that change the cache, from a well-formed one.
use nits.Prelude.{
  ℕ, ◌+◌, ◌<◌, ◌≤◌, ◌≡◌, ◌≢◌, ◌⊎◌, inl, inr, refl, sym, ap, ◌∙◌, true, false, not, none, some, List,
  Eq, nat_eq, arith, Bool-cases, Option-cases,
}
use nits.Prelude.Maps
use nits.Prelude.Maps.{contains, retain, get-remove, get-insert, contains-retain}
use nits.Client.Cache.{
  Entry, ContentCache, u64_mod, new, peek, get, detach, replace_old, place_new, insert, remove,
  add64,
}
use nits.Client.Cache.Wf.{
  IsWf, attach, attach-IsWf, detach-IsWf, size-le-used, replace_old-IsWf, replace_old-absent,
}
use nits.Client.Cache.Evict.{Evicts, evict-Evicts}

module _ {K V : Type 0} ⦃e : Eq K⦄ where
  pub new-IsWf : (budget : ℕ) → IsWf (new {K = K} {V = V} budget)
  unfolding new Maps.get Maps.total
  new-IsWf budget = record {
    distinct = tt;
    sorted = tt;
    ordered = λ t k h. cc;
    listed = λ k x h. cc;
    past = λ k x h. cc;
    counted = refl;
    in_u64 = omega arith;
  }

  -- The pin set plays no part in the bookkeeping.
  pub repin-IsWf : (ps : List K) (c : ContentCache K V) → IsWf c → IsWf (record c { pinned = ps })
  repin-IsWf ps c w = record {
    distinct = w.distinct;
    sorted = w.sorted;
    ordered = w.ordered;
    listed = w.listed;
    past = w.past;
    counted = w.counted;
    in_u64 = w.in_u64;
  }

  replace_old-used : (k : K) (c : ContentCache K V) → IsWf c → (replace_old k c).used ≤ c.used
  unfolding replace_old detach
  replace_old-used k c w = elim (Option-cases (Maps.get k c.entries)) [
    | inl miss ↦ rw (miss, replace_old) (omega arith)
    | inr (x, hit) ↦ rw (hit, replace_old) (omega (arith, size-le-used k x c w hit, w.in_u64))
  ]

  replace_old_settings :
      (k : K) (c : ContentCache K V)
      → ((replace_old k c).next_tick ≡ c.next_tick)
        × ((replace_old k c).pinned ≡ c.pinned)
        × ((replace_old k c).budget ≡ c.budget)
  unfolding replace_old detach
  replace_old_settings k c = ground arith

  module _ (k : K) (v : V) (size : ℕ) (c : ContentCache K V) (w : IsWf c)
      (room : c.used + size < u64_mod) (ticks : c.next_tick + 1 < u64_mod) where
    placed-IsWf : IsWf (place_new k v size (replace_old k c))
    unfolding place_new attach
    placed-IsWf =
        attach-IsWf k (record { value = v; size = size; tick = (replace_old k c).next_tick })
          (replace_old k c) (replace_old-IsWf k c w) (replace_old-absent k c) refl
          (omega (arith, replace_old-used k c w)) (omega (arith, replace_old_settings k c))

    -- `insert` evicts from the cache in which the new entry has replaced the old one.
    pub insert-Evicts :
        Evicts (place_new k v size (replace_old k c)) (insert k v size c).0 (insert k v size c).1
    unfolding insert
    insert-Evicts = evict-Evicts (place_new k v size (replace_old k c)) placed-IsWf

    placed_entry :
        Maps.get k (place_new k v size (replace_old k c)).entries
        ≡ some (record { value = v; size = size; tick = c.next_tick })
    unfolding place_new
    placed_entry = ground (
      arith,
      get-insert k k (record { value = v; size = size; tick = (replace_old k c).next_tick })
          (replace_old k c).entries,
      e.beq_iff k k,
      replace_old_settings k c,
    )

  pub remove-IsWf : (k : K) (c : ContentCache K V) → IsWf c → IsWf (remove k c).1
  unfolding remove
  remove-IsWf k c w = elim (Option-cases (Maps.get k c.entries)) [
    | inl miss ↦ rw (miss, remove) w
    | inr (x, hit) ↦
        rw (hit, remove)
          (repin-IsWf (retain (λ j. not (e.beq j k)) c.pinned) (detach k x c)
            (detach-IsWf k x c w hit))
  ]

  module _ (k : K) (v : V) (size : ℕ) (c : ContentCache K V) (w : IsWf c)
      (room : c.used + size < u64_mod) (ticks : c.next_tick + 1 < u64_mod) where
    abbrev after : ContentCache K V
    after = (insert k v size c).1

    evicts : Evicts (place_new k v size (replace_old k c)) (insert k v size c).0 after
    evicts = insert-Evicts k v size c w room ticks

    same_pins :
        (j : K) → contains j (place_new k v size (replace_old k c)).pinned ≡ contains j c.pinned
    unfolding place_new
    same_pins j = ap (contains j) (replace_old_settings k c).1

    -- What was in the cache has an older tick than the new entry.
    older : (j : K) (y : Entry V) → Maps.get j after.entries ≡ some y → j ≢ k → y.tick < c.next_tick
    unfolding place_new
    older j y h ne =
        let kept : Maps.get j (replace_old k c).entries ≡ some y = ground (
          arith,
          evicts.subset j y h,
          get-insert k j (record { value = v; size = size; tick = (replace_old k c).next_tick })
              (replace_old k c).entries,
          e.beq_iff k j,
        ) in
        omega (arith, (replace_old-IsWf k c w).past j y kept, (replace_old_settings k c).0)

    -- From a well-formed cache whose 64-bit counters do not overflow, `insert` puts the value in, or drops it at once because nothing but pinned entries is left.
    -- A pinned key always keeps it.
    pub insert_self :
        (Maps.get k after.entries ≡ some (record { value = v; size = size; tick = c.next_tick }))
        ⊎ ((contains k c.pinned ≡ false)
            × ((j : K) (y : Entry V)
                → Maps.get j after.entries ≡ some y
                → contains j c.pinned ≡ true))
    insert_self = elim (Option-cases (Maps.get k after.entries)) [
      | inr (y, h) ↦ inl (h ∙ sym (evicts.subset k y h) ∙ placed_entry k v size c w room ticks)
      | inl missing ↦ inr (
          (
            unpinned_of missing,
            λ j y h. elim (Bool-cases (contains j c.pinned)) [
              | inl kept ↦ kept
              | inr free ↦
                  let newer : c.next_tick < y.tick =
                    evicts.lru k (record { value = v; size = size; tick = c.next_tick })
                      (placed_entry k v size c w room ticks) missing j y h (same_pins j ∙ free) in
                  let ne : j ≢ k = λ q. cc (h, missing, q) in absurd (omega (arith, older j y h ne))
            ],
          ))
    ]
      where
        unpinned_of : Maps.get k after.entries ≡ none → contains k c.pinned ≡ false
        unpinned_of missing = elim (Bool-cases (contains k c.pinned)) [
          | inl kept ↦ cc (
            evicts.pinned_stay k (same_pins k ∙ kept),
            missing,
            placed_entry k v size c w room ticks,
          )
          | inr free ↦ free
        ]

  -- A lookup returns what `peek` shows and changes neither the values nor the byte count.
  pub get-peek :
      (k : K) (c : ContentCache K V)
      → ((get k c).0 ≡ peek k c)
        × ((get k c).1.used ≡ c.used)
        × ((j : K) → peek j (get k c).1 ≡ peek j c)
  unfolding get peek
  get-peek k c = elim (Option-cases (Maps.get k c.entries)) [
    | inl miss ↦ rw (miss, get, peek) ((refl, refl, λ j. refl))
    | inr (x, hit) ↦
        rw (hit, get, peek)
          ((
            refl,
            refl,
            λ j.
                ground (
                  arith,
                  get-insert k j (record x { tick = c.next_tick }) c.entries,
                  e.beq_iff k j,
                ),
          ))
  ]

  pub get-next_tick : (k : K) (c : ContentCache K V) → (get k c).1.next_tick ≡ add64 c.next_tick 1
  unfolding get
  get-next_tick k c = elim (Option-cases (Maps.get k c.entries)) [
    | inl miss ↦ rw (miss, get)
    | inr (x, hit) ↦ rw (hit, get)
  ]

  pub place_new_bounds :
      (k : K) (v : V) (size : ℕ) (c : ContentCache K V)
      → IsWf c
      → c.used + size < u64_mod
      → ((place_new k v size (replace_old k c)).next_tick ≤ c.next_tick + 1)
        × ((place_new k v size (replace_old k c)).used ≤ c.used + size)
  unfolding place_new
  place_new_bounds k v size c w room =
      omega (arith, replace_old-used k c w, replace_old_settings k c)

  pub remove_bounds :
      (k : K) (c : ContentCache K V)
      → IsWf c
      → ((remove k c).1.next_tick ≡ c.next_tick) × ((remove k c).1.used ≤ c.used)
  unfolding remove detach
  remove_bounds k c w = elim (Option-cases (Maps.get k c.entries)) [
    | inl miss ↦ rw (miss, remove) (omega arith)
    | inr (x, hit) ↦ rw (hit, remove) (omega (arith, size-le-used k x c w hit, w.in_u64))
  ]
