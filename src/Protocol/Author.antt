-- ===== src/Protocol/Author.antt =====
-- crates/nits-protocol/src/domain.rs: who did something.
use nits.Prelude.{Option, none, some}
use nits.Protocol.Domain.{Text, Text-discrete}

pub record Human : Type 0 where
  pub name : Text
  pub machine : Text

pub data AgentVia : Type 0 where
  mcp cli : AgentVia

pub data Author : Type 0 where
  human_author : Text → Text → Author
  -- name, model, session, invoking human
  agent_author : Text → Text → Text → Option Human → AgentVia → Author
  daemon_author : Text → Author

Human-discrete : Discrete Human
Human-discrete = hlevel Text-discrete

unfoldable pub Invoker-discrete : Discrete (Option Human)
unfolding Human-discrete
Invoker-discrete = hlevel Human-discrete

AgentVia-discrete : Discrete AgentVia
AgentVia-discrete = hlevel

unfoldable pub Author-discrete : Discrete Author
unfolding AgentVia-discrete Human-discrete Invoker-discrete Text-discrete
Author-discrete = hlevel (Text-discrete, Invoker-discrete, AgentVia-discrete)

unfoldable pub as_human : Author → Option Human
as_human (human_author n m) = some (record { name = n; machine = m })
as_human (agent_author _ _ _ _ _) = none
as_human (daemon_author _) = none
