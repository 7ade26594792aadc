-- ===== src/Client/Cache.antt =====
-- crates/nits-client-core/src/cache.rs: the memory tier, an LRU cache with a byte budget and pins.
-- `K` is `CacheKey` and `V` is `CacheValue`: the cache compares keys and stores values.
-- Sums of `u64` wrap as in a release build.
pub mod Wf
pub mod Evict
pub mod Ops
pub mod Runs
pub mod Keys
use nits.Prelude.{
  ℕ, zero, suc, ◌+◌, ◌-◌, ◌*◌, ◌%◌, ◌^◌, Bool, true, false, not, Option, none, some, List, [], ◌∷◌,
  length, ltb, leb, ◌==◌, if◌then◌else◌, Eq, nat_eq,
}
use nits.Prelude.Maps
use nits.Prelude.Maps.{contains, retain, btree_insert}

abbrev pub u64_mod : ℕ
u64_mod = 2 ^ 64

abbrev pub add64 : ℕ → ℕ → ℕ
add64 a b = (a + b) % u64_mod

abbrev pub sub64 : ℕ → ℕ → ℕ
sub64 a b = (a + u64_mod - b) % u64_mod

-- `Bytes::mib`
unfoldable pub mib : ℕ → ℕ
mib n = n * 1024 * 1024 % u64_mod

pub record Entry (V : Type 0) : Type 0 where
  pub value : V
  pub size : ℕ
  pub tick : ℕ

pub record Evicted (K V : Type 0) : Type 0 where
  pub key : K
  pub value : V
  pub size : ℕ

pub record ContentCache (K V : Type 0) : Type 0 where
  pub budget : ℕ
  pub used : ℕ
  pub entries : List (K × Entry V)
  pub order : List (ℕ × K)
  pub next_tick : ℕ
  pub pinned : List K

module _ {K V : Type 0} where
  unfoldable pub new : ℕ → ContentCache K V
  new budget = record {
    budget = budget;
    used = 0;
    entries = [];
    order = [];
    next_tick = 0;
    pinned = [];
  }

  unfoldable pub len : ContentCache K V → ℕ
  len c = length c.entries

  -- The tick handed out, and the cache that counts it.
  unfoldable pub bump : ContentCache K V → ℕ × ContentCache K V
  bump c = (c.next_tick, record c { next_tick = add64 c.next_tick 1 })

module _ {K V : Type 0} ⦃e : Eq K⦄ where
  unfoldable pub has : K → ContentCache K V → Bool
  has k c = elim (Maps.get k c.entries) [ none ↦ false | some _ ↦ true ]

  unfoldable pub peek : K → ContentCache K V → Option V
  peek k c = elim (Maps.get k c.entries) [ none ↦ none | some x ↦ some x.value ]

  -- The entry `x` of `k` becomes the most recently used one.
  unfoldable pub touch : K → Entry V → ℕ → ContentCache K V → ContentCache K V
  touch k x tick c = record c {
    entries = Maps.insert k (record x { tick = tick }) c.entries;
    order = btree_insert tick k (Maps.remove x.tick c.order);
  }

  -- `get`: the tick is spent on a miss too.
  unfoldable pub get : K → ContentCache K V → Option V × ContentCache K V
  unfolding bump touch
  get k c =
      let (tick, c') = bump c in
      elim (Maps.get k c'.entries) [
        | none ↦ (none, c')
        | some x ↦ (some x.value, touch k x tick c')
      ]

  -- Takes an entry out of `entries`, `order` and `used`.
  unfoldable pub detach : K → Entry V → ContentCache K V → ContentCache K V
  detach k x c = record c {
    used = sub64 c.used x.size;
    entries = Maps.remove k c.entries;
    order = Maps.remove x.tick c.order;
  }

  -- Takes an evictable entry out, at the tick that the loop stands at.
  unfoldable pub drop_entry : ℕ → K → Entry V → ContentCache K V → ContentCache K V
  drop_entry tick k x c = record c {
    used = sub64 c.used x.size;
    entries = Maps.remove k c.entries;
    order = Maps.remove tick c.order;
  }

  abbrev pub report :
      K → Entry V → List (Evicted K V) × ContentCache K V → List (Evicted K V) × ContentCache K V
  report k x (out, c) = (record { key = k; value = x.value; size = x.size } ∷ out, c)

  -- The loop of `evict`. The cursor only moves on, and a round removes no tick but the one it
  -- stands at, so the rounds visit what is left of `order` as it stood, oldest first.
  unfoldable pub evict_from :
      List (ℕ × K) → ContentCache K V → List (Evicted K V) × ContentCache K V
  unfolding drop_entry
  evict_from [] c = ([], c)
  evict_from ((tick, k) ∷ rest) c = elim (leb c.used c.budget) [
    | true ↦ ([], c)
    | false ↦ elim (contains k c.pinned) [
      | true ↦ evict_from rest c
      | false ↦ elim (Maps.get k c.entries) [
        | none ↦ evict_from rest (record c { order = Maps.remove tick c.order })
        | some x ↦ report k x (evict_from rest (drop_entry tick k x c))
      ]
    ]
  ]

  unfoldable pub evict : ContentCache K V → List (Evicted K V) × ContentCache K V
  unfolding evict_from
  evict c = evict_from c.order c

  -- `if let Some(old) = self.entries.remove(&key)`
  unfoldable pub replace_old : K → ContentCache K V → ContentCache K V
  unfolding detach
  replace_old k c = elim (Maps.get k c.entries) [ none ↦ c | some old ↦ detach k old c ]

  unfoldable pub place_new : K → V → ℕ → ContentCache K V → ContentCache K V
  unfolding bump
  place_new k v size c =
      let (tick, c') = bump c in
      record c' {
        used = add64 c'.used size;
        order = btree_insert tick k c'.order;
        entries = Maps.insert k (record { value = v; size = size; tick = tick }) c'.entries;
      }

  unfoldable pub insert : K → V → ℕ → ContentCache K V → List (Evicted K V) × ContentCache K V
  unfolding replace_old place_new evict
  insert k v size c = evict (place_new k v size (replace_old k c))

  unfoldable pub remove : K → ContentCache K V → Option V × ContentCache K V
  unfolding detach
  remove k c = elim (Maps.get k c.entries) [
    | none ↦ (none, c)
    | some x ↦
        let c' = detach k x c in
        (some x.value, record c' { pinned = retain (λ j. not (e.beq j k)) c'.pinned })
  ]

  unfoldable pub pin : K → ContentCache K V → ContentCache K V
  pin k c = record c { pinned = k ∷ retain (λ j. not (e.beq j k)) c.pinned }

  unfoldable pub unpin : K → ContentCache K V → ContentCache K V
  unpin k c = record c { pinned = retain (λ j. not (e.beq j k)) c.pinned }

  unfoldable pub retain_pins : (K → Bool) → ContentCache K V → List (Evicted K V) × ContentCache K V
  unfolding evict
  retain_pins keep c = evict (record c { pinned = retain keep c.pinned })

  unfoldable pub clear_pins : ContentCache K V → List (Evicted K V) × ContentCache K V
  unfolding evict
  clear_pins c = evict (record c { pinned = [] })

  unfoldable pub is_pinned : K → ContentCache K V → Bool
  is_pinned k c = contains k c.pinned
