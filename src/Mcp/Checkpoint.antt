-- ===== src/Mcp/Checkpoint.antt =====
-- crates/nits-mcp/src/checkpoint.rs: the session state that a replaced worker hands on, and its
-- wire form. `Selection` is of nits-config.
-- A `Context` of the configuration is only moved, so that its type `C` is a parameter.
pub mod Restore
use nits.Prelude.{
  ℕ, Bool, true, false, not, ◌||◌, ◌==◌, Option, Result, ok, err, same, if◌then◌else◌,
}
use nits.Protocol.Domain.{Text, Text-discrete}
use nits.Protocol.Author.{
  Human, AgentVia, Author, human_author, agent_author, daemon_author, mcp, cli, Invoker-discrete,
}

pub record AgentIdentity : Type 0 where
  pub model : Text
  pub session_id : Text
  pub invoked_by : Option Human

pub data SelectionOrigin : Type 0 where
  from_flag from_environment from_persisted from_implicit from_ad_hoc from_mcp : SelectionOrigin

pub data StartPolicy : Type 0 where
  start_if_needed require_running : StartPolicy

pub record Selection (C : Type 0) : Type 0 where
  pub name : Text
  pub context : C
  pub origin : SelectionOrigin

pub record Endpoint (C : Type 0) : Type 0 where
  pub selection : Selection C
  pub config_path : Text
  pub start : StartPolicy

abbrev pub current_version : ℕ
current_version = 1

pub data CheckpointError : Type 0 where
  unsupported_version : ℕ → CheckpointError
  wrong_provenance : CheckpointError
  changed_identity : CheckpointError

pub record InitializedIdentity : Type 0 where
  pub name : Text
  pub model : Text

-- `InitializedIdentity::author`
unfoldable pub author : InitializedIdentity → AgentIdentity → Author
author i agent = agent_author i.name i.model agent.session_id agent.invoked_by mcp

pub data CursorPolicy : Type 0 where
  initial_context require_context : CursorPolicy

pub data CheckpointState : Type 0 where
  uninitialized : CheckpointState
  initialized : InitializedIdentity → CursorPolicy → CheckpointState

pub record SessionCheckpoint (C : Type 0) : Type 0 where
  pub version : ℕ
  pub endpoint : Endpoint C
  pub agent : AgentIdentity
  pub state : CheckpointState

-- The wire forms.
pub data StateWire : Type 0 where
  uninitialized_wire : StateWire
  initialized_wire : Author → CursorPolicy → StateWire

pub data OriginWire : Type 0 where
  flag_wire environment_wire persisted_wire implicit_wire ad_hoc_wire mcp_wire : OriginWire

pub data StartWire : Type 0 where
  start_if_needed_wire require_running_wire : StartWire

pub record SelectionWire (C : Type 0) : Type 0 where
  pub name : Text
  pub context : C
  pub origin : OriginWire

pub record EndpointWire (C : Type 0) : Type 0 where
  pub selection : SelectionWire C
  pub config_path : Text
  pub start : StartWire

pub record CheckpointWire (C : Type 0) : Type 0 where
  pub version : ℕ
  pub endpoint : EndpointWire C
  pub agent : AgentIdentity
  pub state : StateWire

unfoldable pub origin_wire : SelectionOrigin → OriginWire
origin_wire from_flag = flag_wire
origin_wire from_environment = environment_wire
origin_wire from_persisted = persisted_wire
origin_wire from_implicit = implicit_wire
origin_wire from_ad_hoc = ad_hoc_wire
origin_wire from_mcp = mcp_wire

unfoldable pub origin_of : OriginWire → SelectionOrigin
origin_of flag_wire = from_flag
origin_of environment_wire = from_environment
origin_of persisted_wire = from_persisted
origin_of implicit_wire = from_implicit
origin_of ad_hoc_wire = from_ad_hoc
origin_of mcp_wire = from_mcp

unfoldable pub start_wire : StartPolicy → StartWire
start_wire start_if_needed = start_if_needed_wire
start_wire require_running = require_running_wire

unfoldable pub start_of : StartWire → StartPolicy
start_of start_if_needed_wire = start_if_needed
start_of require_running_wire = require_running

unfoldable pub state_wire : AgentIdentity → CheckpointState → StateWire
unfolding author
state_wire agent uninitialized = uninitialized_wire
state_wire agent (initialized i policy) = initialized_wire (author i agent) policy

-- The match on the wire state, `let … else` included.
unfoldable pub restore_state : AgentIdentity → StateWire → Result CheckpointState CheckpointError
restore_state agent uninitialized_wire = ok uninitialized
restore_state agent (initialized_wire (agent_author name model session invoker mcp) policy) =
    if not (same Text-discrete session agent.session_id)
      || not (same Invoker-discrete invoker agent.invoked_by)
    then err changed_identity
    else ok (initialized (record { name = name; model = model }) policy)
restore_state agent (initialized_wire (agent_author _ _ _ _ cli) policy) = err wrong_provenance
restore_state agent (initialized_wire (human_author _ _) policy) = err wrong_provenance
restore_state agent (initialized_wire (daemon_author _) policy) = err wrong_provenance

module _ {C : Type 0} where
  unfoldable pub endpoint_wire : Endpoint C → EndpointWire C
  unfolding origin_wire start_wire
  endpoint_wire e = record {
    selection = record {
      name = e.selection.name;
      context = e.selection.context;
      origin = origin_wire e.selection.origin;
    };
    config_path = e.config_path;
    start = start_wire e.start;
  }

  unfoldable pub endpoint_of : EndpointWire C → Endpoint C
  unfolding origin_of start_of
  endpoint_of w = record {
    selection = record {
      name = w.selection.name;
      context = w.selection.context;
      origin = origin_of w.selection.origin;
    };
    config_path = w.config_path;
    start = start_of w.start;
  }

  -- `CheckpointWire::from`
  unfoldable pub to_wire : SessionCheckpoint C → CheckpointWire C
  unfolding endpoint_wire state_wire
  to_wire c = record {
    version = c.version;
    endpoint = endpoint_wire c.endpoint;
    agent = c.agent;
    state = state_wire c.agent c.state;
  }

  -- `SessionCheckpoint::try_from`
  unfoldable pub restore : CheckpointWire C → Result (SessionCheckpoint C) CheckpointError
  unfolding endpoint_of restore_state
  restore w = elim (restore_state w.agent w.state) [
    | err e ↦ err e
    | ok s ↦ ok (record {
      version = w.version;
      endpoint = endpoint_of w.endpoint;
      agent = w.agent;
      state = s;
    })
  ]

  unfoldable pub capture : Endpoint C → AgentIdentity → CheckpointState → SessionCheckpoint C
  capture e a s = record { version = current_version; endpoint = e; agent = a; state = s }

  unfoldable pub into_current_parts :
      SessionCheckpoint C → Result (Endpoint C × AgentIdentity × CheckpointState) CheckpointError
  into_current_parts c =
      if not (c.version == current_version)
      then err (unsupported_version c.version)
      else ok (c.endpoint, c.agent, c.state)

  unfoldable pub is_initialized : SessionCheckpoint C → Bool
  is_initialized c = elim c.state [ uninitialized ↦ false | initialized _ _ ↦ true ]
