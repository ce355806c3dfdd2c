-- ===== src/Tests/Fixtures.antt =====
-- A world and the answers from outside for the concrete runs.
use jadeenvoy.Prelude.{ℕ, zero, suc, ◌*◌, String, false, none, [], ◌∷◌, ◌<>◌}
use jadeenvoy.Json.{Value, obj, end}
use jadeenvoy.Errors.{ok}
use jadeenvoy.Provider.{text_delta, stop_reason}
use jadeenvoy.Rows.{Db}
use jadeenvoy.World.{Env, World}
use jadeenvoy.Store.Session.{CreateSessionInput}

abbrev pub unary : ℕ → String
unary zero = "x"
unary (suc n) = "x" <> unary n

abbrev pub quiet : Env
quiet = record {
  new_id = unary;
  now_ms = λ n. n * 10;
  db_fault = λ n. false;
  ctx_done = λ n. false;
  stream = λ n req. ok (
      text_delta "hi"
      ∷ stop_reason "end_turn" (record {
        input_tokens = 3;
        output_tokens = 1;
        cache_creation_input_tokens = 0;
        cache_read_input_tokens = 0;
      })
      ∷ []);
  tool_execute = λ n name input. ok ("done", false);
  mcp_call = λ n server name input. ok ("done", false);
  mcp_list = λ n url auth. ok [];
  provision = λ n. ok tt;
  skill_prompt = λ n. "";
  resource_prompt = λ n. "";
  json_len = λ v. 2;
  host_of = λ s. s;
  error_text = λ e. "error";
  parse_json = λ s. none;
}

abbrev pub empty_db : Db
empty_db = record { sessions = []; events = [] }

abbrev pub blank : World
blank = record {
  db = empty_db;
  tick = 0;
  subscribers = [];
  next_channel = 0;
  closed = [];
  hook_calls = [];
  executed = [];
  requests = [];
}

abbrev pub no_fields : Value
no_fields = obj end

abbrev pub plain : CreateSessionInput
plain = record {
  tenant_id = "";
  agent_id = "agt";
  agent_version = 1;
  agent_snapshot = no_fields;
  environment_id = "";
  title = "";
  vault_ids = [];
  metadata = none;
}
