-- ===== src/Tests/Client.antt =====
-- Runs of the cache and of the view.
use nits.Prelude.{same, ℕ, ◌≡◌, refl, true, false, none, some, List, [], ◌∷◌, arith, nat_eq, ◌⊎◌}
use nits.Prelude.Maps
use nits.Client.View
use nits.Client.View.{
  ViewSection, connection, search, review_list, tree, diff, threads, conversation, commit_stepper,
  ref_selector, progress, focus, hints, help, draft, ViewTypes, ViewModel, patch, patches,
  full_patches, has_section, view_delta, ViewSection-discrete,
}
use nits.Client.View.Sync.{Agrees, full_patches-apply_all, patches-Agrees}
use nits.Client.Cache.{ContentCache, Entry, new, get, peek, insert, evict, pin}
use nits.Client.Cache.Wf.{IsWf}
use nits.Client.Cache.Evict.{Evicts, evict-Evicts}
use nits.Client.Cache.Ops.{new-IsWf, insert_self}
use nits.Client.Cache.Runs.{Op, get_op, insert_op, pin_op, apply_all, apply_all-IsWf}

-- A budget of ten bytes.
abbrev small : ContentCache ℕ ℕ
small = new 10

abbrev calls : List (Op ℕ ℕ)
calls = insert_op 1 100 6 ∷ pin_op 1 ∷ insert_op 2 200 3 ∷ get_op 1 ∷ insert_op 3 300 4 ∷ []

apply_all-IsWf_example : IsWf (apply_all calls (new 10))
apply_all-IsWf_example = apply_all-IsWf 10 calls (omega arith) (omega arith)

-- The second key went, as the oldest that is not pinned.
calls_evict :
    let c = apply_all calls small in
    (peek 1 c ≡ some 100) × (peek 2 c ≡ none) × (peek 3 c ≡ some 300) × (c.used ≡ 10)
unfolding apply_all peek insert get new Maps.get Maps.btree_insert pin Maps.insert Maps.contains
    Maps.retain
calls_evict = (refl, refl, refl, refl)

evict-Evicts_example : let c = apply_all calls small in Evicts c (evict c).0 (evict c).1
evict-Evicts_example = evict-Evicts (apply_all calls small) apply_all-IsWf_example

insert_self_example :
    let after = (insert 5 500 20 small).1 in
    (Maps.get 5 after.entries ≡ some (record { value = 500; size = 20; tick = small.next_tick }))
    ⊎ ((Maps.contains 5 small.pinned ≡ false)
        × ((j : ℕ) (y : Entry ℕ)
            → Maps.get j after.entries ≡ some y
            → Maps.contains j small.pinned ≡ true))
insert_self_example =
    insert_self 5 500 20 small (new-IsWf 10) (unfold new in omega arith) (unfold new in omega arith)

-- Every payload is a number.
abbrev numbers : ViewTypes
numbers = record {
  HomeView = ℕ;
  DaemonContext = ℕ;
  ViewPrefs = ℕ;
  TreeView = ℕ;
  Progress = ℕ;
  DiffView = ℕ;
  ThreadView = ℕ;
  ReviewRequest = ℕ;
  ReviewerCheckpoint = ℕ;
  CommitStepper = ℕ;
  Focus = ℕ;
  Tab = ℕ;
  ScrollIntent = ℕ;
  Mode = ℕ;
  Hint = ℕ;
  LastKey = ℕ;
  HelpView = ℕ;
  ReviewReference = ℕ;
  CommentId = ℕ;
  ConnectionView = ℕ;
  RpcError = ℕ;
  DaemonManagement = ℕ;
  ClientSeq = ℕ;
  Workspace = ℕ;
  Review = ℕ;
  ReviewId = ℕ;
  ResolvedTarget = ℕ;
  DiffScope = ℕ;
  BrowseView = ℕ;
  ContentSearchView = ℕ;
  RefSelectorView = ℕ;
  VisualView = ℕ;
  OpenReview = ℕ;
  Draft = ℕ;
}

abbrev shown : ViewModel numbers
shown = record {
  home = 1;
  daemon_context = none;
  active_repo = none;
  copy_checkout = none;
  prefs = 1;
  tree = 1;
  progress = 1;
  diff = none;
  diffs = [];
  threads = [];
  conversation = [];
  requests = [];
  checkpoints = [];
  check_current_ready = false;
  stepper = none;
  focus = 1;
  tab = 1;
  scroll = none;
  mode = 1;
  pending_label = none;
  hints = [];
  pending_keys = [];
  leader = [];
  chrome = [];
  bindings = [];
  last_key = none;
  help = none;
  copy_target = none;
  copy_reference = none;
  focused_comment = none;
  connection = 1;
  last_error = none;
  daemon_management = 1;
  uncertain_mutations = [];
  workspaces = [];
  reviews = [];
  open_review = none;
  resolved_targets = [];
  scope = 1;
  browse = none;
  content_search = none;
  action_palette = false;
  ref_selector = none;
  visual = none;
  review = none;
  draft = none;
  pending_refresh = false;
}

abbrev blank : ViewModel numbers
blank = record {
  home = 0;
  daemon_context = none;
  active_repo = none;
  copy_checkout = none;
  prefs = 0;
  tree = 0;
  progress = 0;
  diff = none;
  diffs = [];
  threads = [];
  conversation = [];
  requests = [];
  checkpoints = [];
  check_current_ready = false;
  stepper = none;
  focus = 0;
  tab = 0;
  scroll = none;
  mode = 0;
  pending_label = none;
  hints = [];
  pending_keys = [];
  leader = [];
  chrome = [];
  bindings = [];
  last_key = none;
  help = none;
  copy_target = none;
  copy_reference = none;
  focused_comment = none;
  connection = 0;
  last_error = none;
  daemon_management = 0;
  uncertain_mutations = [];
  workspaces = [];
  reviews = [];
  open_review = none;
  resolved_targets = [];
  scope = 0;
  browse = none;
  content_search = none;
  action_palette = false;
  ref_selector = none;
  visual = none;
  review = none;
  draft = none;
  pending_refresh = false;
}

full_patches-apply_all_example :
    View.apply_all numbers (full_patches numbers shown) blank ≡ record shown { review = none }
full_patches-apply_all_example = full_patches-apply_all numbers shown blank

abbrev repeated : List ViewSection
repeated = tree ∷ diff ∷ tree ∷ []

-- The tree changed, and nothing else.
abbrev grown : ViewModel numbers
grown = record shown { tree = 9 }

only_tree :
    (s : ViewSection)
    → has_section s (tree ∷ tree ∷ []) ≡ false
    → patch numbers shown s ≡ patch numbers grown s
unfolding patch has_section same ViewSection-discrete
only_tree tree h = cc
only_tree connection h = refl
only_tree search h = refl
only_tree review_list h = refl
only_tree diff h = refl
only_tree threads h = refl
only_tree conversation h = refl
only_tree commit_stepper h = refl
only_tree ref_selector h = refl
only_tree progress h = refl
only_tree focus h = refl
only_tree hints h = refl
only_tree help h = refl
only_tree draft h = refl

patches-Agrees_example :
    Agrees numbers
      (View.apply_all numbers (patches numbers grown (view_delta (tree ∷ tree ∷ []))) shown)
      grown
patches-Agrees_example =
    patches-Agrees numbers shown shown grown (tree ∷ tree ∷ []) (λ s. refl) only_tree
