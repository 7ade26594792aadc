-- ===== src/Store/Log/Rebuild.antt =====
-- store/mod.rs: the views are a cache of the log, and its numbering has no gap.
use mathlib.Core.Path.{subst}
use mathlib.Core.List.{append-nil, append_assoc}
use nits.Prelude.{
  ok-ok, >>=_ok, ℕ, suc, ◌+◌, ◌<◌, ◌≤◌, ◌≡◌, refl, sym, ap, ◌∙◌, Option, none, some, List, [], ◌∷◌,
  ◌++◌, length, ok, err, ◌>>=◌, arith, inl, inr, Result-cases, length-append,
}
use nits.Store.Events.{Event}
use nits.Store.Views.Apply.{apply}
use nits.Store.Views.{Tables, empty_tables}
use nits.Store.Log.{
  Store, NewEvent, StoredEvent, u64_mod, append, coming_seq, last_seq, next_seq, sequenced,
  put_event, fold_rows, rebuild_views, rows_after, events_after, empty_store,
}
use nits.Store.Log.Rows.{
  rows_after-last_key, fold_rows-last_key, Counted, last_key-Counted, btree_insert-Counted,
  Counted-append, fold_rows-append,
}

-- The log counts up from 1, and the views and their cursor are its fold.
pub record IsFolded (s : Store) : Type 0 where
  pub counted : Counted 1 s.events
  pub folded : fold_rows s.events empty_tables none ≡ ok (s.views, s.view_seq)

pub empty_store-IsFolded : IsFolded empty_store
unfolding fold_rows
empty_store-IsFolded = record { counted = tt; folded = refl }

pub coming_seq-length :
    (s : Store)
    → Counted 1 s.events
    → length s.events + 1 < u64_mod
    → coming_seq s ≡ length s.events + 1
unfolding coming_seq last_seq next_seq
coming_seq-length s h b = ground (arith, last_key-Counted 1 s.events h)

some_or_none : (o : Option ℕ) → elim o [ none ↦ none | some k ↦ some k ] ≡ o
some_or_none none = refl
some_or_none (some k) = refl

module _ (current_schema : ℕ) where
  abbrev row_of : ℕ → NewEvent → StoredEvent
  row_of seq e = record { schema = current_schema; event = sequenced seq e }

  -- The store after the event, once the views are known.
  abbrev grown : NewEvent → Tables → Store → Store
  grown e views s = record {
    events = s.events ++ (length s.events + 1, row_of (length s.events + 1) e) ∷ [];
    views = views;
    view_seq = some (length s.events + 1);
  }

  append_eq :
      (e : NewEvent) (s : Store)
      → IsFolded s
      → length s.events + 1 < u64_mod
      → append current_schema e s ≡ (
          apply s.views (sequenced (length s.events + 1) e) >>= λ views.
          ok (sequenced (length s.events + 1) e, grown e views s))
  unfolding append put_event sequenced
  append_eq e s h b =
      let n = length s.events + 1 in
      rw (coming_seq-length s h.counted b) (elim (Result-cases (apply s.views (sequenced n e))) [
        | inl (views, q) ↦
            rw (q, btree_insert-Counted 1 n (row_of n e) s.events h.counted (omega arith)) refl
        | inr (x, q) ↦ rw q refl
      ])

  grown-IsFolded :
      (e : NewEvent) (views : Tables) (s : Store)
      → IsFolded s
      → apply s.views (sequenced (length s.events + 1) e) ≡ ok views
      → IsFolded (grown e views s)
  unfolding sequenced
  grown-IsFolded e views s h a =
      let n = length s.events + 1 in
      record {
        counted = Counted-append 1 n (row_of n e) s.events h.counted (omega arith) refl;
        folded =
            fold_rows-append s.events n (row_of n e) empty_tables s.views views none s.view_seq
              h.folded a;
      }

  -- What a successful `append` has done.
  pub append_ok :
      (e : NewEvent) (s s' : Store) (event : Event)
      → IsFolded s
      → length s.events + 1 < u64_mod
      → append current_schema e s ≡ ok (event, s')
      → (views : Tables) × (apply s.views event ≡ ok views)
        × (event ≡ sequenced (length s.events + 1) e)
        × (s' ≡ grown e views s)
  append_ok e s s' event h b q =
      let n = length s.events + 1 in
      let (views, a, p) =
        >>=_ok (apply s.views (sequenced n e)) (λ views. ok (sequenced n e, grown e views s))
          (sym (append_eq e s h b) ∙ q) in
      let r : (sequenced n e, grown e views s) ≡ (event, s') = ok-ok p in
      let ev : sequenced n e ≡ event = ap (λ x. x.0) r in
      (views, subst (λ x. apply s.views x ≡ ok views) ev a, sym ev, sym (ap (λ x. x.1) r))

  -- The transactions of a run; one that fails commits nothing.
  unfoldable pub append_all : List NewEvent → Store → Store
  append_all [] s = s
  append_all (e ∷ es) s = elim (append current_schema e s) [
    | ok r ↦ append_all es r.1
    | err _ ↦ append_all es s
  ]

  length-grown :
      (e : NewEvent) (views : Tables) (s : Store)
      → length (grown e views s).events ≡ suc (length s.events)
  length-grown e views s = length-append s.events _ ∙ omega arith

  append-IsFolded :
      (e : NewEvent) (s s' : Store) (event : Event)
      → IsFolded s
      → length s.events + 1 < u64_mod
      → append current_schema e s ≡ ok (event, s')
      → IsFolded s' × (length s'.events ≡ suc (length s.events))
  append-IsFolded e s s' event h b q =
      let (views, a, ev, p) = append_ok e s s' event h b q in
      let a' = subst (λ x. apply s.views x ≡ ok views) ev a in
      subst (λ x. IsFolded x × (length x.events ≡ suc (length s.events))) (sym p)
        (grown-IsFolded e views s h a', length-grown e views s)

  pub append_all-IsFolded :
      (es : List NewEvent) (s : Store)
      → IsFolded s
      → length s.events + length es < u64_mod
      → IsFolded (append_all es s) × (length (append_all es s).events ≤ length s.events + length es)
  unfolding append_all
  append_all-IsFolded [] s h b = (h, omega arith)
  append_all-IsFolded (e ∷ es) s h b = elim (Result-cases (append current_schema e s)) [
    | inl ((event, s'), q) ↦
        let (h', l) = append-IsFolded e s s' event h (omega arith) q in
        let (f, m) = append_all-IsFolded es s' h' (omega arith) in
        rw (q, append_all) (f, omega arith)
    | inr (x, q) ↦
        let (f, m) = append_all-IsFolded es s h (omega arith) in rw (q, append_all) (f, omega arith)
  ]

  -- Whatever events a run of appends tried, from the empty store: dropping the views and folding
  -- the log again gives back exactly the store that the appends built step by step, and the cursor
  -- of the views is the last key of the log. The sequence numbers must not run out.
  pub rebuild_views-append_all :
      (es : List NewEvent)
      → length es < u64_mod
      → (rebuild_views (append_all es empty_store) ≡ ok (append_all es empty_store))
        × ((append_all es empty_store).view_seq ≡ last_seq (append_all es empty_store))
  unfolding rebuild_views last_seq
  rebuild_views-append_all es b =
      let s = append_all es empty_store in
      let (h, l) = append_all-IsFolded es empty_store empty_store-IsFolded (omega arith) in
      (
        rw h.folded refl,
        fold_rows-last_key s.events empty_tables s.views none s.view_seq h.folded ∙ some_or_none _,
      )

  append_all_extends :
      (es : List NewEvent) (s : Store)
      → IsFolded s
      → length s.events + length es < u64_mod
      → (more : List (ℕ × StoredEvent)) × ((append_all es s).events ≡ s.events ++ more)
  unfolding append_all
  append_all_extends [] s h b = ([], sym (append-nil s.events))
  append_all_extends (e ∷ es) s h b = elim (Result-cases (append current_schema e s)) [
    | inl ((event, s'), q) ↦
        let (views, a, ev, p) = append_ok e s s' event h (omega arith) q in
        let (h', l) = append-IsFolded e s s' event h (omega arith) q in
        let (more, m) = append_all_extends es s' h' (omega arith) in
        let row : ℕ × StoredEvent = (length s.events + 1, row_of (length s.events + 1) e) in
        rw (q, append_all)
          (row ∷ more, m ∙ (ap (λ x. x.events ++ more) p ∙ append_assoc s.events (row ∷ []) more))
    | inr (x, q) ↦ rw (q, append_all) (append_all_extends es s h (omega arith))
  ]

  pub events_after-append_all :
      (es fs : List NewEvent)
      → length es + length fs < u64_mod
      → let s = append_all es empty_store in
        let s' = append_all fs s in
        (events_after none s' ≡ events_after none s ++ events_after (last_seq s) s')
        × Counted 1 s'.events
  unfolding events_after last_seq
  events_after-append_all es fs b =
      let s = append_all es empty_store in
      let (h, l) = append_all-IsFolded es empty_store empty_store-IsFolded (omega arith) in
      let (h', l') = append_all-IsFolded fs s h (omega arith) in
      let (more, m) = append_all_extends fs s h (omega arith) in
      (
        subst (λ x. rows_after none x ≡ rows_after none s.events ++ rows_after (last_seq s) x)
            (sym m) (rows_after-last_key s.events more (subst (λ x. Counted 1 x) m h'.counted)),
        h'.counted,
      )
