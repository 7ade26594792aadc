-- ===== src/Store/Comments/Changes.antt =====
-- comments.rs and store/views.rs: what an allowed event does to the comments and threads.
use nits.Prelude.{
  ℕ, ◌≡◌, refl, sym, ap, ◌∙◌, none, some, [], ◌∷◌, ◌++◌, Result, ok, err, arith, inl, inr, false,
  nat_eq, pair_eq, Option-cases, Bool-cases, ◌==◌, ok-ok, some_inj,
}
use nits.Prelude.Maps.{get, insert}
use nits.Protocol.Domain.{Text, deleted}
use nits.Store.Events.{
  Comment, Thread, ThreadResolution, deferred, resolved_by, open_thread, for_root, Event, EventBody,
  workspace_created, workspace_updated, repo_attached, repo_detached, review_created,
  review_updated, review_target_updated, review_deleted, review_targets_resolved, comment_created,
  comment_edited, comment_deleted, comment_reanchored, thread_deferred, thread_resolved,
  thread_unresolved, file_viewed, file_unviewed, review_requested, review_checked,
  suggestion_applied,
}
use nits.Store.Views.{
  inconsistent, unknown_review, reply_to_unknown, Tables, is_deleted, load_comment, save_comment,
  load_thread, save_thread, load_review, thread_with, create_comment, put_comment, unindex_anchor,
}
use nits.Store.Views.Apply.{apply_body, set_resolution}
use nits.Store.Core.{Ctx}
use nits.Store.Consistent.{IsConsistent}
use nits.Store.Consistent.Steps.{KeyOf-get}
use nits.Store.Consistent.Writes.{
  SameParts, pair_path, put_comment-writes, unindex_anchor-SameParts,
}
use nits.Store.Comments.Rules.{Command, Allowed, Step}

-- Who wrote a comment, where, when and as what.
abbrev pub SameOrigin : Comment → Comment → Type 0
SameOrigin x y =
    (y.author ≡ x.author)
    × (y.thread_id ≡ x.thread_id)
    × (y.kind ≡ x.kind)
    × (y.created ≡ x.created)
    × (y.anchor ≡ x.anchor)
    × (y.context ≡ x.context)

pub data Change (ctx : Ctx) (k : Command) (t t' : Tables) : Type 0 where
  creates :
      (c : Comment) (th : Thread)
      → get (c.review_id, c.id) t.comments ≡ none
      → t'.comments ≡ insert (c.review_id, c.id) c t.comments
      → t'.threads ≡ insert (c.review_id, c.thread_id) th t.threads
      → ((x : Thread)
          → get (c.review_id, c.thread_id) t.threads ≡ some x
          → (th.resolution ≡ x.resolution) × (th.root ≡ x.root))
      → Change ctx k t t'
  writes :
      (r id : ℕ) (x new : Comment)
      → get (r, id) t.comments ≡ some x
      → (is_deleted x.state ≡ false) × (x.author ≡ ctx.author) × SameOrigin x new
      → t'.comments ≡ insert (r, id) new t.comments
      → t'.threads ≡ t.threads
      → Change ctx k t t'
  settles :
      (r h : ℕ) (x new : Thread)
      → get (r, h) t.threads ≡ some x
      → Step ctx r h k x.resolution new.resolution × (new.root ≡ x.root)
      → t'.threads ≡ insert (r, h) new t.threads
      → t'.comments ≡ t.comments
      → Change ctx k t t'

ok-err {ℓ κ} : {A : Type ℓ} {E : Type κ} {a : A} {e : E} → ◌≡◌ {A = Result A E} (ok a) (err e) → ⊥
ok-err h = absurd (ground arith)

none-some {ℓ} : {A : Type ℓ} {a : A} → none ≡ some a → ⊥
none-some h = absurd (ground arith)

module _ (ctx : Ctx) (k : Command) (t t' : Tables) (h : IsConsistent t) where
  written :
      (r id : ℕ) (x new : Comment) (u : Tables)
      → get (r, id) t.comments ≡ some x
      → (is_deleted x.state ≡ false) × (x.author ≡ ctx.author) × SameOrigin x new
      → (new.review_id ≡ x.review_id) × (new.id ≡ x.id)
      → SameParts t u
      → save_comment new u ≡ t'
      → Change ctx k t t'
  unfolding save_comment
  written r id x new u q own (er, ei) (a, b, c) e =
      let (i, l) = h.comment_keys r id x q in
      let comments : t'.comments ≡ insert (r, id) new t.comments =
        sym (ap (λ w. w.comments) e)
        ∙ ap (λ m. insert (new.review_id, new.id) new m) b
        ∙ ap (λ w. insert w new t.comments) (pair_path (er ∙ i) (ei ∙ l)) in
      writes r id x new q own comments (sym (ap (λ w. w.threads) e) ∙ c)

  settled :
      (seq r id : ℕ) (s : ThreadResolution) (x : Thread)
      → get (r, id) t.threads ≡ some x
      → Step ctx r id k x.resolution s
      → set_resolution t seq r id s ≡ ok t'
      → Change ctx k t t'
  unfolding set_resolution load_thread save_thread
  settled seq r id s x q st e =
      let (i, l) = KeyOf-get r id x t.threads h.thread_keys q in
      let new = record x { resolution = s } in
      let found : set_resolution t seq r id s ≡ ok (save_thread new t) = rw q refl in
      let done : save_thread new t ≡ t' = ok-ok (sym found ∙ e) in
      let threads : t'.threads ≡ insert (r, id) new t.threads =
        sym (ap (λ w. w.threads) done) ∙ ap (λ w. insert w new t.threads) (pair_path i l) in
      settles r id x new q (st, refl) threads (sym (ap (λ w. w.comments) done))

  put_Change :
      (c : Comment) (th : Thread)
      → get (c.review_id, c.id) t.comments ≡ none
      → ((x : Thread)
          → get (c.review_id, c.thread_id) t.threads ≡ some x
          → (th.resolution ≡ x.resolution) × (th.root ≡ x.root))
      → put_comment c th t ≡ t'
      → Change ctx k t t'
  put_Change c th fresh same e =
      let (a, b, d) = put_comment-writes t c th in
      creates c th fresh (sym (ap (λ w. w.comments) e) ∙ b) (sym (ap (λ w. w.threads) e) ∙ d) same

  created :
      (seq : ℕ) (c : Comment)
      → get (c.review_id, c.id) t.comments ≡ none
      → create_comment t seq c ≡ ok t'
      → Change ctx k t t'
  unfolding create_comment load_review thread_with
  created seq c fresh e = elim (Option-cases (get c.review_id t.reviews)) [
    | inl q ↦
        let found : create_comment t seq c ≡ err (inconsistent seq (unknown_review c.review_id)) =
          rw q refl in
        absurd (ok-err (sym e ∙ found))
    | inr (rec, q) ↦ elim (Option-cases (get (c.review_id, c.thread_id) t.threads)) [
      | inr (old, there) ↦
          let th = record old { replies = old.replies ++ c.id ∷ [] } in
          let found : create_comment t seq c ≡ ok (put_comment c th t) = rw (q, there) refl in
          put_Change c th fresh
            (λ x p. let same : old ≡ x = some_inj (sym there ∙ p) in rw same (refl, refl))
            (ok-ok (sym found ∙ e))
      | inl empty ↦ elim (Bool-cases (c.thread_id == c.id)) [
        | inr b ↦
            let found : create_comment t seq c
                ≡ err (inconsistent seq (reply_to_unknown c.id c.thread_id)) =
              rw (q, empty, b) refl in
            absurd (ok-err (sym e ∙ found))
        | inl b ↦
            let th : Thread = record {
              id = c.thread_id;
              review_id = c.review_id;
              root = c.id;
              replies = [];
              resolution = for_root c.kind;
            } in
            let found : create_comment t seq c ≡ ok (put_comment c th t) = rw (q, empty, b) refl in
            put_Change c th fresh (λ x p. absurd (none-some (sym empty ∙ p)))
              (ok-ok (sym found ∙ e))
      ]
    ]
  ]

  edited :
      (e : Event) (r id : ℕ) (body : Text) (x : Comment)
      → get (r, id) t.comments ≡ some x
      → (is_deleted x.state ≡ false) × (x.author ≡ ctx.author)
      → apply_body t e (comment_edited r id body) ≡ ok t'
      → Change ctx k t t'
  unfolding apply_body load_comment
  edited e r id body x q (d, a) p =
      let new = record x { body = body; edited = some e.ts } in
      let found : apply_body t e (comment_edited r id body) ≡ ok (save_comment new t) = rw q refl in
      written r id x new t q (d, a, (refl, refl, refl, refl, refl, refl)) (refl, refl)
        (refl, refl, refl) (ok-ok (sym found ∙ p))

  removed :
      (e : Event) (r id : ℕ) (x : Comment)
      → get (r, id) t.comments ≡ some x
      → (is_deleted x.state ≡ false) × (x.author ≡ ctx.author)
      → apply_body t e (comment_deleted r id) ≡ ok t'
      → Change ctx k t t'
  unfolding apply_body load_comment
  removed e r id x q (d, a) p =
      let new = record x { state = deleted } in
      let u = unindex_anchor x t in
      let found : apply_body t e (comment_deleted r id) ≡ ok (save_comment new u) = rw q refl in
      written r id x new u q (d, a, (refl, refl, refl, refl, refl, refl)) (refl, refl)
        (unindex_anchor-SameParts x t) (ok-ok (sym found ∙ p))

  -- An event that the command allows the caller changes one comment or one thread.
  pub Allowed-Change :
      (e : Event) (b : EventBody)
      → Allowed ctx k t b
      → e.author ≡ ctx.author
      → e.ts ≡ ctx.now
      → apply_body t e b ≡ ok t'
      → Change ctx k t t'
  unfolding apply_body
  Allowed-Change e (comment_created c) (f, a) w n p = created e.seq c f p
  Allowed-Change e (comment_edited r id body) (x, q, d, a) w n p = edited e r id body x q (d, a) p
  Allowed-Change e (comment_deleted r id) (x, q, d, a) w n p = removed e r id x q (d, a) p
  Allowed-Change e (thread_deferred r h' reason url) (x, q, st) w n p =
      settled e.seq r h' (deferred reason url e.author e.ts) x q (rw (w, n) st) p
  Allowed-Change e (thread_resolved r h') (x, q, st) w n p =
      settled e.seq r h' (resolved_by e.author e.ts) x q (rw (w, n) st) p
  Allowed-Change e (thread_unresolved r h') (x, q, st) w n p =
      settled e.seq r h' open_thread x q st p
  Allowed-Change e (workspace_created _) f w n p = absurd f
  Allowed-Change e (workspace_updated _ _) f w n p = absurd f
  Allowed-Change e (repo_attached _ _) f w n p = absurd f
  Allowed-Change e (repo_detached _ _) f w n p = absurd f
  Allowed-Change e (review_created _) f w n p = absurd f
  Allowed-Change e (review_updated _ _ _) f w n p = absurd f
  Allowed-Change e (review_target_updated _ _) f w n p = absurd f
  Allowed-Change e (review_deleted _) f w n p = absurd f
  Allowed-Change e (review_targets_resolved _ _) f w n p = absurd f
  Allowed-Change e (comment_reanchored _ _ _ _) f w n p = absurd f
  Allowed-Change e (file_viewed _ _ _ _ _) f w n p = absurd f
  Allowed-Change e (file_unviewed _ _ _ _) f w n p = absurd f
  Allowed-Change e (review_requested _ _ _ _ _) f w n p = absurd f
  Allowed-Change e (review_checked _ _ _ _) f w n p = absurd f
  Allowed-Change e (suggestion_applied _ _ _ _ _) f w n p = absurd f
