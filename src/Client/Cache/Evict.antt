-- ===== src/Client/Cache/Evict.antt =====
-- cache.rs: what the eviction loop leaves and what it takes, from a well-formed cache.
use mathlib.Core.Path.{subst}
use nits.Prelude.{
  leb→le, ℕ, ◌+◌, ◌<◌, ◌≤◌, ◌≡◌, ◌≢◌, ◌⊎◌, inl, inr, refl, sym, ap, ◌∙◌, true, false, none, some,
  List, [], ◌∷◌, leb, Eq, nat_eq, arith, All, some_inj, Bool-cases, Option-cases,
}
use nits.Prelude.Maps
use nits.Prelude.Maps.{contains, get-remove, total, IsSorted, get-IsAbove}
use nits.Client.Cache.{Entry, Evicted, ContentCache, drop_entry, detach, evict_from, evict}
use nits.Client.Cache.Wf.{IsWf, detach-IsWf, size-le-used}

-- The bytes of what was evicted.
unfoldable pub evicted_bytes : {K V : Type 0} → List (Evicted K V) → ℕ
evicted_bytes [] = 0
evicted_bytes (v ∷ vs) = v.size + evicted_bytes vs

module _ {K V : Type 0} ⦃e : Eq K⦄ where
  -- `v` was an unpinned entry of `c`, is not one of `c'`, and was less recently used than every
  -- unpinned entry of `c'`.
  pub record IsVictim (c c' : ContentCache K V) (v : Evicted K V) : Type 0 where
    pub entry : Entry V
    pub was_there : Maps.get v.key c.entries ≡ some entry
    pub reported : (v.value ≡ entry.value) × (v.size ≡ entry.size)
    pub unpinned : contains v.key c.pinned ≡ false
    pub left : Maps.get v.key c'.entries ≡ none
    pub oldest :
        (k : K) (y : Entry V)
        → Maps.get k c'.entries ≡ some y
        → contains k c.pinned ≡ false
        → entry.tick < y.tick

  -- What eviction promises of the cache before and after, and of what it reports.
  pub record Evicts (c : ContentCache K V) (out : List (Evicted K V)) (c' : ContentCache K V)
      : Type 0 where
    pub wf : IsWf c'
    pub settings : (c'.budget ≡ c.budget) × (c'.pinned ≡ c.pinned) × (c'.next_tick ≡ c.next_tick)
    pub fits :
        (c'.used ≤ c.budget)
        ⊎ ((k : K) (x : Entry V) → Maps.get k c'.entries ≡ some x → contains k c.pinned ≡ true)
    pub conserved : c'.used + evicted_bytes out ≡ c.used
    pub subset :
        (k : K) (x : Entry V) → Maps.get k c'.entries ≡ some x → Maps.get k c.entries ≡ some x
    pub pinned_stay :
        (k : K) → contains k c.pinned ≡ true → Maps.get k c'.entries ≡ Maps.get k c.entries
    pub victims : All (IsVictim c c') out
    pub lru :
        (k : K) (x : Entry V)
        → Maps.get k c.entries ≡ some x
        → Maps.get k c'.entries ≡ none
        → (j : K) (y : Entry V) → Maps.get j c'.entries ≡ some y
        → contains j c.pinned ≡ false
        → x.tick < y.tick
    pub needed : c.used ≤ c.budget → (out ≡ []) × (c' ≡ c)

  -- What the loop may assume of the ticks that it has not visited.
  record Awaits (rest : List (ℕ × K)) (c : ContentCache K V) : Type 0 where
    ascending : IsSorted rest
    pending : (t : ℕ) (k : K) → Maps.get t rest ≡ some k → Maps.get t c.order ≡ some k
    covers :
        (k : K) (x : Entry V)
        → Maps.get k c.entries ≡ some x
        → contains k c.pinned ≡ false
        → Maps.get x.tick rest ≡ some k

  stop-Evicts :
      (c : ContentCache K V)
      → IsWf c
      → (c.used ≤ c.budget)
        ⊎ ((k : K) (x : Entry V) → Maps.get k c.entries ≡ some x → contains k c.pinned ≡ true)
      → Evicts c [] c
  unfolding evicted_bytes
  stop-Evicts c w done = record {
    wf = w;
    settings = (refl, refl, refl);
    fits = done;
    conserved = omega arith;
    subset = λ k x h. h;
    pinned_stay = λ k h. refl;
    victims = tt;
    lru = λ k x h missing. absurd (cc);
    needed = λ h. (refl, refl);
  }

  -- One round that drops the entry `x` of `k` at `tick`, followed by the rest of the loop.
  module _ (tick : ℕ) (k : K) (rest : List (ℕ × K)) (c : ContentCache K V) (w : IsWf c)
      (a : Awaits ((tick, k) ∷ rest) c) where
    head_found : Maps.get tick ((tick, k) ∷ rest) ≡ some k
    unfolding Maps.get
    head_found = ground arith

    head_entry : (x : Entry V) × (Maps.get k c.entries ≡ some x) × (x.tick ≡ tick)
    head_entry = w.ordered tick k (a.pending tick k head_found)

    tail_pending :
        (t : ℕ) (j : K) → Maps.get t rest ≡ some j → (Maps.get t c.order ≡ some j) × (tick < t)
    unfolding Maps.get
    tail_pending t j h =
        let later : tick < t = get-IsAbove tick t j rest a.ascending.0 h in
        (ground (arith, a.pending t j), later)

    tail_covers :
        (j : K) (y : Entry V)
        → Maps.get j c.entries ≡ some y
        → contains j c.pinned ≡ false
        → j ≢ k
        → Maps.get y.tick rest ≡ some j
    unfolding Maps.get
    tail_covers j y h free ne = ground (arith, a.covers j y h free)

    skip-Awaits : contains k c.pinned ≡ true → Awaits rest c
    skip-Awaits kept = record {
      ascending = a.ascending.1;
      pending = λ t j h. (tail_pending t j h).0;
      covers = λ j y h free. tail_covers j y h free (λ q. cc);
    }

    at_tick : (x : Entry V) → Maps.get k c.entries ≡ some x → x.tick ≡ tick
    at_tick x at =
        let (y, there, same_tick) = head_entry in
        subst (λ (z : Entry V). z.tick ≡ tick) (some_inj (sym there ∙ at)) same_tick

    drop-IsWf : (x : Entry V) → Maps.get k c.entries ≡ some x → IsWf (drop_entry tick k x c)
    unfolding drop_entry detach
    drop-IsWf x at =
        subst (λ (t : ℕ). IsWf (drop_entry t k x c)) (at_tick x at) (detach-IsWf k x c w at)

    drop-Awaits :
        (x : Entry V) → Maps.get k c.entries ≡ some x → Awaits rest (drop_entry tick k x c)
    unfolding drop_entry
    drop-Awaits x at = record {
      ascending = a.ascending.1;
      pending = λ t j h. ground (arith, get-remove tick t c.order, tail_pending t j h);
      covers = λ j y h free.
          let kept : (Maps.get j c.entries ≡ some y) × (j ≢ k) =
            ground (arith, get-remove k j c.entries, e.beq_iff k j) in
          tail_covers j y kept.0 free kept.1;
    }

    module _ (x : Entry V) (at : Maps.get k c.entries ≡ some x) (free : contains k c.pinned ≡ false)
        (over : leb c.used c.budget ≡ false) (out : List (Evicted K V)) (c' : ContentCache K V)
        (ih : Evicts (drop_entry tick k x c) out c') where
      gone : Maps.get k c'.entries ≡ none
      unfolding drop_entry
      gone = elim (Option-cases (Maps.get k c'.entries)) [
        | inl missing ↦ missing
        | inr (y, h) ↦ ground (arith, ih.subset k y h, get-remove k k c.entries, e.beq_iff k k)
      ]

      kept_entry :
          (j : K) (y : Entry V)
          → Maps.get j c'.entries ≡ some y
          → (Maps.get j c.entries ≡ some y) × (j ≢ k)
      unfolding drop_entry
      kept_entry j y h = ground (arith, ih.subset j y h, get-remove k j c.entries, e.beq_iff k j)

      head_victim : IsVictim c c' (record { key = k; value = x.value; size = x.size })
      head_victim = record {
        entry = x;
        was_there = at;
        reported = (refl, refl);
        unpinned = free;
        left = gone;
        oldest = λ j y h free'.
            let (there, ne) = kept_entry j y h in
            let later : tick < y.tick =
              get-IsAbove tick y.tick j rest a.ascending.0 (tail_covers j y there free' ne) in
            omega (arith, at_tick x at);
      }

      later_victim : (v : Evicted K V) → IsVictim (drop_entry tick k x c) c' v → IsVictim c c' v
      unfolding drop_entry
      later_victim v o = record {
        entry = o.entry;
        was_there = ground (arith, o.was_there, get-remove k v.key c.entries, e.beq_iff k v.key);
        reported = o.reported;
        unpinned = o.unpinned;
        left = o.left;
        oldest = o.oldest;
      }

      later_victims :
          (vs : List (Evicted K V))
          → All (IsVictim (drop_entry tick k x c) c') vs
          → All (IsVictim c c') vs
      later_victims [] h = tt
      later_victims (v ∷ vs) h = (later_victim v h.0, later_victims vs h.1)

      missing_lru :
          (j : K) (z : Entry V)
          → Maps.get j c.entries ≡ some z
          → Maps.get j c'.entries ≡ none
          → (i : K) (y : Entry V) → Maps.get i c'.entries ≡ some y
          → contains i c.pinned ≡ false
          → z.tick < y.tick
      unfolding drop_entry head_victim
      missing_lru j z h missing i y hy free' = elim (Bool-cases (e.beq k j)) [
        | inl here ↦
            let same_entry : x ≡ z =
              some_inj (sym at ∙ ap (λ q. Maps.get q c.entries) ((e.beq_iff k j).0 here) ∙ h) in
            subst (λ (q : Entry V). q.tick < y.tick) same_entry (head_victim.oldest i y hy free')
        | inr away ↦ ih.lru j z (ground (arith, get-remove k j c.entries)) missing i y hy free'
      ]

      drop-Evicts : Evicts c (record { key = k; value = x.value; size = x.size } ∷ out) c'
      unfolding drop_entry evicted_bytes
      drop-Evicts = record {
        wf = ih.wf;
        settings = ih.settings;
        fits = ih.fits;
        conserved = omega (arith, ih.conserved, size-le-used k x c w at, w.in_u64);
        subset = λ j y h. (kept_entry j y h).0;
        pinned_stay =
            λ j h. ground (arith, ih.pinned_stay j h, get-remove k j c.entries, e.beq_iff k j);
        victims = (head_victim, later_victims out ih.victims);
        lru = missing_lru;
        needed = λ h. absurd (ground arith);
      }

  -- With no tick left to visit, every entry is pinned.
  all_pinned :
      (c : ContentCache K V)
      → Awaits [] c
      → (k : K) (x : Entry V) → Maps.get k c.entries ≡ some x
      → contains k c.pinned ≡ true
  unfolding Maps.get
  all_pinned c a k x h = elim (Bool-cases (contains k c.pinned)) [
    | inl kept ↦ kept
    | inr free ↦ cc (a.covers k x h free)
  ]

  evict_from-Evicts :
      (rest : List (ℕ × K)) (c : ContentCache K V)
      → IsWf c
      → Awaits rest c
      → Evicts c (evict_from rest c).0 (evict_from rest c).1
  unfolding evict_from
  evict_from-Evicts [] c w a = stop-Evicts c w (inr (all_pinned c a))
  evict_from-Evicts ((tick, k) ∷ rest) c w a = elim (Bool-cases (leb c.used c.budget)) [
    | inl fits ↦ rw (fits, evict_from) (stop-Evicts c w (inl (leb→le _ _ fits)))
    | inr over ↦ elim (Bool-cases (contains k c.pinned)) [
      | inl kept ↦
          rw (over, kept, evict_from)
            (evict_from-Evicts rest c w (skip-Awaits tick k rest c w a kept))
      | inr free ↦
          let (x, at, _) = head_entry tick k rest c w a in
          rw (over, free, at, evict_from)
            (drop-Evicts tick k rest c w a x at free over
              (evict_from rest (drop_entry tick k x c)).0
              (evict_from rest (drop_entry tick k x c)).1
              (evict_from-Evicts rest (drop_entry tick k x c) (drop-IsWf tick k rest c w a x at)
                (drop-Awaits tick k rest c w a x at)))
    ]
  ]

  -- Eviction from a well-formed cache, whatever its pins: the cache stays well formed, with its
  -- settings and pins; it fits the budget, or only pinned entries are left; the bytes that leave
  -- are reported; pinned entries stay as they are; what leaves was unpinned and less recently
  -- used than every unpinned entry that stays; and within the budget nothing leaves.
  pub evict-Evicts : (c : ContentCache K V) → IsWf c → Evicts c (evict c).0 (evict c).1
  unfolding evict
  evict-Evicts c w =
      evict_from-Evicts c.order c w
        (record { ascending = w.sorted; pending = λ t k h. h; covers = λ k x h _. w.listed k x h })
