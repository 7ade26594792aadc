-- ===== src/Tests/Mcp.antt =====
-- Runs of the session checkpoint.
use nits.Prelude.{ℕ, ◌≡◌, refl, some, [], ◌∷◌, ok, err}
use nits.Protocol.Author.{human_author}
use nits.Mcp.Checkpoint.{
  AgentIdentity, Endpoint, from_flag, start_if_needed, SessionCheckpoint, initialized,
  require_context, initialized_wire, wrong_provenance, to_wire, restore, restore_state,
}
use nits.Mcp.Checkpoint.Restore.{restore-to_wire}

abbrev agent : AgentIdentity
agent = record {
  model = 1 ∷ [];
  session_id = 2 ∷ [];
  invoked_by = some (record { name = 3 ∷ []; machine = [] });
}

abbrev endpoint : Endpoint ℕ
endpoint = record {
  selection = record { name = 4 ∷ []; context = 5; origin = from_flag };
  config_path = 6 ∷ [];
  start = start_if_needed;
}

abbrev session : SessionCheckpoint ℕ
session = record {
  version = 2;
  endpoint = endpoint;
  agent = agent;
  state = initialized (record { name = 7 ∷ []; model = 8 ∷ [] }) require_context;
}

restore-to_wire_example : restore (to_wire session) ≡ ok session
restore-to_wire_example = restore-to_wire session

-- A human cannot be the author of a session.
human_refused :
    restore_state agent (initialized_wire (human_author [] []) require_context)
    ≡ err wrong_provenance
unfolding restore_state
human_refused = refl
