-- ===== src/Mcp/Checkpoint/Restore.antt =====
-- checkpoint.rs: the wire form keeps a checkpoint, and no wire form that changes the session's
-- attribution is accepted.
use mathlib.Core.Path.{subst}
use nits.Prelude.{◌≡◌, refl, sym, inl, inr, arith, ok, same_refl, same→eq, Result-cases}
use nits.Protocol.Domain.{Text-discrete}
use nits.Protocol.Author.{agent_author, human_author, daemon_author, mcp, cli, Invoker-discrete}
use nits.Mcp.Checkpoint.{
  AgentIdentity, SelectionOrigin, OriginWire, StartPolicy, StartWire, Endpoint, EndpointWire,
  CheckpointState, uninitialized, initialized, StateWire, uninitialized_wire, initialized_wire,
  SessionCheckpoint, CheckpointWire, origin_wire, origin_of, start_wire, start_of, state_wire,
  restore_state, endpoint_wire, endpoint_of, to_wire, restore, author,
}

origin_of-origin_wire : (o : SelectionOrigin) → origin_of (origin_wire o) ≡ o
unfolding origin_of origin_wire
origin_of-origin_wire o = ground arith

origin_wire-origin_of : (o : OriginWire) → origin_wire (origin_of o) ≡ o
unfolding origin_of origin_wire
origin_wire-origin_of o = ground arith

start_of-start_wire : (s : StartPolicy) → start_of (start_wire s) ≡ s
unfolding start_of start_wire
start_of-start_wire s = ground arith

start_wire-start_of : (s : StartWire) → start_wire (start_of s) ≡ s
unfolding start_of start_wire
start_wire-start_of s = ground arith

restore_state-state_wire :
    (a : AgentIdentity) (s : CheckpointState) → restore_state a (state_wire a s) ≡ ok s
unfolding restore_state state_wire author
restore_state-state_wire a uninitialized = refl
restore_state-state_wire a (initialized i policy) =
    ground (arith, same_refl Text-discrete a.session_id, same_refl Invoker-discrete a.invoked_by)

-- A wire state that is accepted is the one that the restored state is written as.
state_wire-restore_state :
    (a : AgentIdentity) (w : StateWire) (s : CheckpointState)
    → restore_state a w ≡ ok s
    → state_wire a s ≡ w
unfolding restore_state state_wire author
state_wire-restore_state a uninitialized_wire s h = ground arith
state_wire-restore_state a (initialized_wire (human_author n m) p) s h = cc
state_wire-restore_state a (initialized_wire (daemon_author m) p) s h = cc
state_wire-restore_state a (initialized_wire (agent_author n m session who cli) p) s h = cc
state_wire-restore_state a (initialized_wire (agent_author n m session who mcp) p) s h =
    ground
      (arith, same→eq Text-discrete session a.session_id, same→eq Invoker-discrete who a.invoked_by)

module _ {C : Type 0} where
  endpoint_of-endpoint_wire : (e : Endpoint C) → endpoint_of (endpoint_wire e) ≡ e
  unfolding endpoint_of endpoint_wire
  endpoint_of-endpoint_wire e =
      rw (origin_of-origin_wire e.selection.origin, start_of-start_wire e.start) refl

  endpoint_wire-endpoint_of : (w : EndpointWire C) → endpoint_wire (endpoint_of w) ≡ w
  unfolding endpoint_of endpoint_wire
  endpoint_wire-endpoint_of w =
      rw (origin_wire-origin_of w.selection.origin, start_wire-start_of w.start) refl

  -- A checkpoint survives its wire form: what is written is accepted and is the checkpoint again.
  pub restore-to_wire : (c : SessionCheckpoint C) → restore (to_wire c) ≡ ok c
  unfolding restore to_wire
  restore-to_wire c =
      rw (restore, restore_state-state_wire c.agent c.state, endpoint_of-endpoint_wire c.endpoint)
        refl

  -- Nothing in an accepted wire form is dropped or changed: the checkpoint is written as the
  -- same wire form, so that its author is the MCP agent of the session and of its invoking human.
  pub to_wire-restore :
      (w : CheckpointWire C) (c : SessionCheckpoint C) → restore w ≡ ok c → to_wire c ≡ w
  unfolding restore to_wire
  to_wire-restore w c h = elim (Result-cases (restore_state w.agent w.state)) [
    | inr (e, q) ↦ cc (rw (restore, q) at h)
    | inl (s, q) ↦
        let same_checkpoint : c ≡ record {
          version = w.version;
          endpoint = endpoint_of w.endpoint;
          agent = w.agent;
          state = s;
        } =
          cc (rw (restore, q) at h) in
        subst (λ (x : SessionCheckpoint C). to_wire x ≡ w) (sym same_checkpoint)
          (rw (state_wire-restore_state w.agent w.state s q, endpoint_wire-endpoint_of w.endpoint)
            refl)
  ]
