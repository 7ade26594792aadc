-- ===== src/Protocol/Domain.antt =====
-- crates/nits-protocol/src/domain.rs: anchors and comment states. Object ids, repository ids and
-- hashes are fixed-width numbers that the program only compares, a path is its text.
use native.Mathlib.Decide.{ℕ_discrete}
use nits.Prelude.{ℕ, List}
use nits.Protocol.Lines.{LineNo, LineRange}

abbrev pub Text : Type 0
Text = List ℕ

abbrev pub RepoId : Type 0
RepoId = ℕ

abbrev pub BlobOid : Type 0
BlobOid = ℕ

pub data Side : Type 0 where
  base head : Side

pub data Anchor : Type 0 where
  review : Anchor
  file : RepoId → Text → BlobOid → Anchor
  -- repository, path, side, blob, lines, context hash
  lines : RepoId → Text → Side → BlobOid → LineRange → ℕ → Anchor

pub data CommentState : Type 0 where
  live : CommentState
  outdated : Anchor → CommentState
  deleted : CommentState

unfoldable pub Text-discrete : Discrete Text
unfolding ℕ_discrete
Text-discrete = hlevel ℕ_discrete

LineNo-discrete : Discrete LineNo
LineNo-discrete = hlevel ℕ_discrete

LineRange-discrete : Discrete LineRange
LineRange-discrete = hlevel LineNo-discrete

unfoldable pub Anchor-discrete : Discrete Anchor
unfolding Text-discrete LineNo-discrete LineRange-discrete
Anchor-discrete = hlevel (ℕ_discrete, Text-discrete, LineRange-discrete)
