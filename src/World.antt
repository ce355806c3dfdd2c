-- ===== src/World.antt =====
-- What the program's calls see and change: the two tables, the broker's subscriptions, and the
-- world outside (clock, ULIDs, database faults, cancellation, the model, the tools).
pub mod Keeps
use jadeenvoy.Prelude.{ℕ, ◌+◌, String, Bool, false, List, if◌then◌else◌}
use jadeenvoy.Json.{Raw, Value}
use jadeenvoy.Errors.{Error, Result, ok, err, canceled, db_error}
use jadeenvoy.Provider.{ChatRequest, ChatEvent, ToolDef}
use jadeenvoy.Rows.{Db, Event}

-- The answers from outside; the number is the count of calls made so far.
pub record Env : Type 0 where
  -- the text of a fresh ULID
  pub new_id : ℕ → String
  -- time.Now().UTC().UnixMilli()
  pub now_ms : ℕ → ℕ
  -- the database refuses the call (I/O, lock timeout)
  pub db_fault : ℕ → Bool
  -- the context of the running turn is cancelled
  pub ctx_done : ℕ → Bool
  -- Provider.Stream: an error, or the events up to the closing of the channel
  pub stream : ℕ → ChatRequest → Result (List ChatEvent)
  -- Tool.Execute of a built-in tool, and tools/call of an MCP server
  pub tool_execute : ℕ → String → Raw → Result (String × Bool)
  pub mcp_call : ℕ → String → String → Raw → Result (String × Bool)
  -- Initialize and ListTools of an MCP client with a URL and an Authorization header
  pub mcp_list : ℕ → String → String → Result (List ToolDef)
  -- the sandbox's Provision, and what mountSkills and mountResources add to the system prompt
  pub provision : ℕ → Result (Unit {0})
  pub skill_prompt : ℕ → String
  pub resource_prompt : ℕ → String
  -- encoding/json's reading of a text and the bytes of a document, url.Parse with Hostname, and the text of an error
  pub parse_json : String → Raw
  pub json_len : Value → ℕ
  pub host_of : String → String
  pub error_text : Error → String

-- A subscription of event.Broker: its session, its channel (64 places) and what waits in it.
pub record Subscriber : Type 0 where
  pub channel : ℕ
  pub session_id : String
  pub queue : List Event

-- `closed` holds the channels that the broker has closed. `hook_calls`, `executed` and `requests`
-- are what an observer sees of the calls that leave the program: the post-publish hooks, the tools
-- run on the server side, and the model requests.
pub record World : Type 0 where
  pub db : Db
  pub tick : ℕ
  pub subscribers : List Subscriber
  pub next_channel : ℕ
  pub closed : List Subscriber
  pub hook_calls : List Event
  pub executed : List (String × Raw)
  pub requests : List ChatRequest

abbrev pub next : World → World
next w = record w { tick = w.tick + 1 }

abbrev pub M : Type 0 → Type 0
M A = World → Result A × World

abbrev pub continue : {A B : Type 0} → Result A → (A → M B) → M B
continue (ok a) f w = f a w
continue (err e) f w = (err e, w)

pub pure : {A : Type 0} → A → M A
pure a w = (ok a, w)

pub fail : {A : Type 0} → Error → M A
fail e w = (err e, w)

pub lift : {A : Type 0} → Result A → M A
lift r w = (r, w)

pub gets : {A : Type 0} → (World → A) → M A
gets f w = (ok (f w), w)

pub modify : (World → World) → M (Unit {0})
modify f w = (ok tt, f w)

-- `_ = call`: the error is dropped.
pub ignore : {A : Type 0} → M A → M (Unit {0})
ignore m w = let (r, w') = m w in (ok tt, w')

-- context.Background(), or the context of the turn that an interrupt cancels
pub data Ctx : Type 0 where
  background turn : Ctx

abbrev pub is_done : Env → Ctx → ℕ → Bool
is_done env background n = false
is_done env turn n = env.ctx_done n

-- One call of the database; database/sql returns the context's error when that is done.
pub db_call : Env → Ctx → M (Unit {0})
db_call env ctx w =
    if is_done env ctx w.tick
    then (err canceled, next w)
    else if env.db_fault w.tick
    then (err db_error, next w)
    else (ok tt, next w)

-- The error of an action as a value.
pub attempt : {A : Type 0} → M A → M (Result A)
attempt m w = let (r, w') = m w in (ok r, w')

-- A call that leaves the program: its answer from the count of calls.
pub ask : {A : Type 0} → (ℕ → A) → M A
ask f w = (ok (f w.tick), next w)

-- Opening this opens the other actions too.
infixl 5 ◌>>=◌ ◌>>◌
unfoldable pub ◌>>=◌ : {A B : Type 0} → M A → (A → M B) → M B
unfolding pure fail lift gets modify ignore db_call attempt ask
◌>>=◌ m f w = let (r, w') = m w in continue r f w'

abbrev pub ◌>>◌ : {A B : Type 0} → M A → M B → M B
m >> k = m >>= λ _. k

abbrev pub set_db : Db → World → World
set_db d w = record w { db = d }
