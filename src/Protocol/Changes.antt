-- ===== src/Protocol/Changes.antt =====
-- crates/nits-protocol/src/domain.rs: tree entries, changed files, and what a review targets.
-- A commit or tree id is a number that the program only compares; a `NonEmpty` is its list.
use nits.Prelude.{ℕ, Bool, Option, List}
use nits.Protocol.Domain.{Text, RepoId, BlobOid}

abbrev pub CommitOid : Type 0
CommitOid = BlobOid

abbrev pub TreeOid : Type 0
TreeOid = BlobOid

pub data BlobMode : Type 0 where
  regular executable symlink unknown_mode : BlobMode

pub record BlobEntry : Type 0 where
  pub oid : BlobOid
  pub mode : BlobMode

pub data ViewedContent : Type 0 where
  missing : ViewedContent
  blob_content : BlobEntry → ViewedContent
  submodule_content : CommitOid → ViewedContent

pub data SubmoduleChange : Type 0 where
  submodule_added submodule_deleted : CommitOid → SubmoduleChange
  submodule_updated : CommitOid → CommitOid → SubmoduleChange
  submodule_renamed : Text → CommitOid → CommitOid → SubmoduleChange
  blob_to_submodule : BlobEntry → CommitOid → SubmoduleChange
  submodule_to_blob : CommitOid → BlobEntry → SubmoduleChange

pub data ChangeKind : Type 0 where
  submodule : SubmoduleChange → ChangeKind
  added removed : BlobEntry → ChangeKind
  modified : BlobEntry → BlobEntry → ChangeKind
  renamed : Text → BlobEntry → BlobEntry → ChangeKind

-- A `RevisionExpr` is its text.
pub data RefSpec : Type 0 where
  branch : Text → RefSpec
  commit : CommitOid → RefSpec
  tag : Text → RefSpec
  revision : Text → RefSpec
  working_tree upstream head_commit : RefSpec

pub record ReviewTarget : Type 0 where
  pub repo_id : RepoId
  pub base_ref : RefSpec
  pub head_ref : RefSpec

pub data ResolvedSource : Type 0 where
  from_commit : CommitOid → ResolvedSource
  -- dirty paths, branch, HEAD
  from_working_tree : List Text → Option Text → Option CommitOid → ResolvedSource

pub record ResolvedRef : Type 0 where
  pub tree : TreeOid
  pub source : ResolvedSource

pub record ResolvedTarget : Type 0 where
  pub repo_id : RepoId
  pub base_tree : ResolvedRef
  pub head_tree : ResolvedRef

pub record FileChange : Type 0 where
  pub repo_id : RepoId
  pub path : Text
  pub kind : ChangeKind

pub data TreeEntryKind : Type 0 where
  -- blob, size, executable
  file_entry : BlobOid → ℕ → Bool → TreeEntryKind
  dir_entry : TreeOid → TreeEntryKind
  symlink_entry : BlobOid → TreeEntryKind
  submodule_entry : CommitOid → TreeEntryKind

pub record TreeEntry : Type 0 where
  pub path : Text
  pub kind : TreeEntryKind
