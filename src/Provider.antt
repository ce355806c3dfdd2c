-- ===== src/Provider.antt =====
-- internal/provider/provider.go: the messages, the request and the stream of one model call.
use jadeenvoy.Prelude.{ℕ, String, Bool, List}
use jadeenvoy.Json.{Raw}
use jadeenvoy.Errors.{ApiError}

-- The roles that the program gives a message.
pub data Role : Type 0 where
  user assistant : Role

-- `none` is a zero json.RawMessage in `tool_input`.
pub record ContentBlock : Type 0 where
  pub type : String
  pub text : String
  pub tool_use_id : String
  pub tool_name : String
  pub tool_input : Raw
  pub tool_result : String
  pub is_error : Bool

pub record Message : Type 0 where
  pub role : Role
  pub content : List ContentBlock

pub record ToolDef : Type 0 where
  pub name : String
  pub description : String
  pub input_schema : Raw

-- The program never sets a temperature.
pub record ChatRequest : Type 0 where
  pub model : String
  pub system : String
  pub messages : List Message
  pub tools : List ToolDef
  pub max_tokens : ℕ

pub record Usage : Type 0 where
  pub input_tokens : ℕ
  pub output_tokens : ℕ
  pub cache_creation_input_tokens : ℕ
  pub cache_read_input_tokens : ℕ

pub data ChatEvent : Type 0 where
  text_delta : String → ChatEvent
  tool_use_start : String → String → ChatEvent
  tool_use_delta : String → String → ChatEvent
  stop_reason : String → Usage → ChatEvent
  error_event : ApiError → ChatEvent
