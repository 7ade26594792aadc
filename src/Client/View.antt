-- ===== src/Client/View.antt =====
-- crates/nits-client-core/src/patch.rs and view.rs: the view model and its section patches.
-- The code of these files only moves the payloads, so that their types are parameters.
pub mod Sync
use nits.Prelude.{Bool, true, false, Option, List, [], ◌∷◌, ◌++◌, map, same, if◌then◌else◌}
use nits.Protocol.Domain.{Text, RepoId}

-- nits-protocol/src/rpc.rs: `ViewSection`, in the order that its derived `iter` goes through.
pub data ViewSection : Type 0 where
  connection search review_list tree diff threads conversation commit_stepper ref_selector progress
        focus hints help draft :
      ViewSection

unfoldable pub ViewSection-discrete : Discrete ViewSection
ViewSection-discrete = hlevel

abbrev pub all_sections : List ViewSection
all_sections =
    connection ∷ search ∷ review_list ∷ tree ∷ diff ∷ threads ∷ conversation ∷ commit_stepper
    ∷ ref_selector ∷ progress ∷ focus ∷ hints ∷ help ∷ draft ∷ []

-- The types of the payloads.
pub record ViewTypes : Type 1 where
  pub HomeView : Type 0
  pub DaemonContext : Type 0
  pub ViewPrefs : Type 0
  pub TreeView : Type 0
  pub Progress : Type 0
  pub DiffView : Type 0
  pub ThreadView : Type 0
  pub ReviewRequest : Type 0
  pub ReviewerCheckpoint : Type 0
  pub CommitStepper : Type 0
  pub Focus : Type 0
  pub Tab : Type 0
  pub ScrollIntent : Type 0
  pub Mode : Type 0
  pub Hint : Type 0
  pub LastKey : Type 0
  pub HelpView : Type 0
  pub ReviewReference : Type 0
  pub CommentId : Type 0
  pub ConnectionView : Type 0
  pub RpcError : Type 0
  pub DaemonManagement : Type 0
  pub ClientSeq : Type 0
  pub Workspace : Type 0
  pub Review : Type 0
  pub ReviewId : Type 0
  pub ResolvedTarget : Type 0
  pub DiffScope : Type 0
  pub BrowseView : Type 0
  pub ContentSearchView : Type 0
  pub RefSelectorView : Type 0
  pub VisualView : Type 0
  pub OpenReview : Type 0
  pub Draft : Type 0

module _ (T : ViewTypes) where
  open T use {
    HomeView, DaemonContext, ViewPrefs, TreeView, Progress, DiffView, ThreadView, ReviewRequest,
    ReviewerCheckpoint, CommitStepper, Focus, Tab, ScrollIntent, Mode, Hint, LastKey, HelpView,
    ReviewReference, CommentId, ConnectionView, RpcError, DaemonManagement, ClientSeq, Workspace,
    Review, ReviewId, ResolvedTarget, DiffScope, BrowseView, ContentSearchView, RefSelectorView,
    VisualView, OpenReview, Draft,
  }

  pub record ViewModel : Type 0 where
    pub home : HomeView
    pub daemon_context : Option DaemonContext
    pub active_repo : Option RepoId
    pub copy_checkout : Option Text
    pub prefs : ViewPrefs
    pub tree : TreeView
    pub progress : Progress
    pub diff : Option DiffView
    pub diffs : List DiffView
    pub threads : List ThreadView
    pub conversation : List ThreadView
    pub requests : List ReviewRequest
    pub checkpoints : List ReviewerCheckpoint
    pub check_current_ready : Bool
    pub stepper : Option CommitStepper
    pub focus : Focus
    pub tab : Tab
    pub scroll : Option ScrollIntent
    pub mode : Mode
    pub pending_label : Option Text
    pub hints : List Hint
    pub pending_keys : Text
    pub leader : Text
    pub chrome : List Hint
    pub bindings : List Hint
    pub last_key : Option LastKey
    pub help : Option HelpView
    pub copy_target : Option Text
    pub copy_reference : Option ReviewReference
    pub focused_comment : Option CommentId
    pub connection : ConnectionView
    pub last_error : Option RpcError
    pub daemon_management : DaemonManagement
    pub uncertain_mutations : List ClientSeq
    pub workspaces : List Workspace
    pub reviews : List Review
    pub open_review : Option ReviewId
    pub resolved_targets : List ResolvedTarget
    pub scope : DiffScope
    pub browse : Option BrowseView
    pub content_search : Option ContentSearchView
    pub action_palette : Bool
    pub ref_selector : Option RefSelectorView
    pub visual : Option VisualView
    pub review : Option OpenReview
    pub draft : Option Draft
    pub pending_refresh : Bool

  -- The part of the view that one section owns.
  pub data ViewPatch : Type 0 where
    connection_patch :
        ConnectionView → Option RpcError → List ClientSeq → DaemonManagement → ViewPatch
    review_list_patch :
        HomeView
        → Option DaemonContext
        → Option RepoId
        → List Workspace
        → List Review
        → Option ReviewId
        → List ResolvedTarget
        → DiffScope
        → Option BrowseView
        → ViewPatch
    tree_patch : TreeView → ViewPatch
    diff_patch : Option DiffView → List DiffView → ViewPrefs → Option VisualView → ViewPatch
    threads_patch : List ThreadView → ViewPatch
    conversation_patch :
        List ThreadView → List ReviewRequest → List ReviewerCheckpoint → Bool → ViewPatch
    commit_stepper_patch : Option CommitStepper → ViewPatch
    ref_selector_patch : Option RefSelectorView → ViewPatch
    progress_patch : Progress → ViewPatch
    focus_patch :
        Focus
        → Tab
        → Option ScrollIntent
        → Option Text
        → Option Text
        → Option ReviewReference
        → Option CommentId
        → ViewPatch
    hints_patch :
        List Hint
        → Text
        → Option Text
        → Mode
        → Text
        → List Hint
        → List Hint
        → Option LastKey
        → ViewPatch
    help_patch : Option HelpView → ViewPatch
    draft_patch : Option Draft → Bool → ViewPatch
    search_patch : Option ContentSearchView → Bool → ViewPatch

  unfoldable pub section : ViewPatch → ViewSection
  section (connection_patch _ _ _ _) = connection
  section (review_list_patch _ _ _ _ _ _ _ _ _) = review_list
  section (tree_patch _) = tree
  section (diff_patch _ _ _ _) = diff
  section (threads_patch _) = threads
  section (conversation_patch _ _ _ _) = conversation
  section (commit_stepper_patch _) = commit_stepper
  section (ref_selector_patch _) = ref_selector
  section (progress_patch _) = progress
  section (focus_patch _ _ _ _ _ _ _) = focus
  section (hints_patch _ _ _ _ _ _ _ _) = hints
  section (help_patch _) = help
  section (draft_patch _ _) = draft
  section (search_patch _ _) = search

  -- The patch that carries a section of the model.
  unfoldable pub patch : ViewModel → ViewSection → ViewPatch
  patch m connection =
      connection_patch m.connection m.last_error m.uncertain_mutations m.daemon_management
  patch m review_list =
      review_list_patch m.home m.daemon_context m.active_repo m.workspaces m.reviews m.open_review
        m.resolved_targets m.scope m.browse
  patch m tree = tree_patch m.tree
  patch m diff = diff_patch m.diff m.diffs m.prefs m.visual
  patch m threads = threads_patch m.threads
  patch m conversation =
      conversation_patch m.conversation m.requests m.checkpoints m.check_current_ready
  patch m commit_stepper = commit_stepper_patch m.stepper
  patch m ref_selector = ref_selector_patch m.ref_selector
  patch m progress = progress_patch m.progress
  patch m focus =
      focus_patch m.focus m.tab m.scroll m.copy_target m.copy_checkout m.copy_reference
        m.focused_comment
  patch m hints =
      hints_patch m.hints m.pending_keys m.pending_label m.mode m.leader m.chrome m.bindings
        m.last_key
  patch m help = help_patch m.help
  patch m draft = draft_patch m.draft m.pending_refresh
  patch m search = search_patch m.content_search m.action_palette

  -- Installs a patch into the copy of the model.
  unfoldable pub apply : ViewPatch → ViewModel → ViewModel
  apply (connection_patch a' b' c' d') m = record m {
    connection = a';
    last_error = b';
    uncertain_mutations = c';
    daemon_management = d';
  }
  apply (review_list_patch a' b' c' d' e' f' g' h' i') m = record m {
    home = a';
    daemon_context = b';
    active_repo = c';
    workspaces = d';
    reviews = e';
    open_review = f';
    resolved_targets = g';
    scope = h';
    browse = i';
  }
  apply (tree_patch a') m = record m { tree = a' }
  apply (diff_patch a' b' c' d') m = record m { diff = a'; diffs = b'; prefs = c'; visual = d' }
  apply (threads_patch a') m = record m { threads = a' }
  apply (conversation_patch a' b' c' d') m = record m {
    conversation = a';
    requests = b';
    checkpoints = c';
    check_current_ready = d';
  }
  apply (commit_stepper_patch a') m = record m { stepper = a' }
  apply (ref_selector_patch a') m = record m { ref_selector = a' }
  apply (progress_patch a') m = record m { progress = a' }
  apply (focus_patch a' b' c' d' e' f' g') m = record m {
    focus = a';
    tab = b';
    scroll = c';
    copy_target = d';
    copy_checkout = e';
    copy_reference = f';
    focused_comment = g';
  }
  apply (hints_patch a' b' c' d' e' f' g' h') m = record m {
    hints = a';
    pending_keys = b';
    pending_label = c';
    mode = d';
    leader = e';
    chrome = f';
    bindings = g';
    last_key = h';
  }
  apply (help_patch a') m = record m { help = a' }
  apply (draft_patch a' b') m = record m { draft = a'; pending_refresh = b' }
  apply (search_patch a' b') m = record m { content_search = a'; action_palette = b' }

  -- `patches`: one for each section that a render delta names, in its order.
  unfoldable pub patches : ViewModel → List ViewSection → List ViewPatch
  patches m ss = map (patch m) ss

  unfoldable pub full_patches : ViewModel → List ViewPatch
  unfolding patches
  full_patches m = patches m all_sections

  -- A UI installs the patches that arrive one by one.
  unfoldable pub apply_all : List ViewPatch → ViewModel → ViewModel
  unfolding apply
  apply_all [] m = m
  apply_all (p ∷ ps) m = apply_all ps (apply p m)

unfoldable pub has_section : ViewSection → List ViewSection → Bool
has_section s [] = false
has_section s (t ∷ ts) =
    let rest = has_section s ts in if same ViewSection-discrete s t then true else rest

-- The loop of `ViewDelta::new`: a section is kept the first time that it is touched.
unfoldable pub push_new : List ViewSection → List ViewSection → List ViewSection
unfolding has_section
push_new out [] = out
push_new out (s ∷ ss) = push_new (if has_section s out then out else out ++ s ∷ []) ss

unfoldable pub view_delta : List ViewSection → List ViewSection
unfolding push_new
view_delta sections = push_new [] sections
