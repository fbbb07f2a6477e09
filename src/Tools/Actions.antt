-- ===== src/Tools/Actions.antt =====
-- What src/aegisrun/tools/pipeline.py does to its surroundings, and the log of it: the events that were
-- stored and the tools that were run.
use equi_seek.Prelude.{ℕ, String, Bool, Option, none, some, List, ◌∷◌, if◌then◌else◌}
use equi_seek.Data.Json.{Value}
use equi_seek.Tools.Spec.{ToolSpec, ToolResult, Raised, Result}

pub data ToolPolicyAction : Type 0 where
  allow : ToolPolicyAction
  deny : ToolPolicyAction
  ask : ToolPolicyAction

pub record ToolPolicyDecision : Type 0 where
  pub action : ToolPolicyAction
  pub reason : String

pub record ToolExecutionContext : Type 0 where
  pub call_id : String
  pub agent_id : String
  pub task_id : Option String
  pub tool : ToolSpec
  pub arguments : Value

-- the events of types policy/decision, tool/call and tool/result, and the runs of handlers
pub data LogEntry : Type 0 where
  decided : ToolExecutionContext → ToolPolicyAction → (reason : String) → LogEntry
  called : ToolExecutionContext → (name : String) → LogEntry
  ended : ToolExecutionContext → Result ToolResult → LogEntry
  ran : ToolExecutionContext → LogEntry

pub record Surroundings : Type 1 where
  pub World : Type 0
  -- the message of the first error by the path of the value, from the JSON schema library
  pub first_error : (schema arguments : Value) → Option String
  pub policy_hooks : List (ToolExecutionContext → World → Result ToolPolicyDecision × World)
  pub approval_hook : Option (ToolExecutionContext → String → World → Result Bool × World)
  -- the handler of the context's tool, under its timeout
  pub handler : ToolExecutionContext → World → Result ToolResult × World
  -- `asyncio.gather` of the handlers, where each keeps what it raises
  pub gather : List ToolExecutionContext → World → Result (List (Result ToolResult)) × World
  -- whether there is an event store, and what appending to it raises
  pub has_events : Bool
  pub append : LogEntry → World → Option Raised × World
  pub uuid : World → String × World
  pub decimal : ℕ → String

module _ (X : Surroundings) where
  open X use {World, has_events, append}

  -- the newest entry of the log stands first
  pub record Run : Type 0 where
    pub world : World
    pub log : List LogEntry

  abbrev pub Action : Type 0 → Type 0
  Action A = Run → Result A × Run

  abbrev pub next : {A B : Type 0} → (A → Action B) → Result A × Run → Result B × Run
  next f (Result.done a, r) = f a r
  next f (Result.raised e, r) = (Result.raised e, r)

  infixl 5 ◌>>=◌
  abbrev pub ◌>>=◌ : {A B : Type 0} → Action A → (A → Action B) → Action B
  ◌>>=◌ m f r = next f (m r)

  abbrev pub give : {A : Type 0} → A → Action A
  give a r = (Result.done a, r)

  abbrev pub raise : {A : Type 0} → Raised → Action A
  raise e r = (Result.raised e, r)

  -- what the surroundings do, without an entry in the log
  abbrev pub observed : {A : Type 0} → Result A × World → List LogEntry → Result A × Run
  observed (x, w) log = (x, record { world = w; log = log })

  abbrev pub ask_world : {A : Type 0} → (World → Result A × World) → Action A
  ask_world f r = observed (f r.world) r.log

  abbrev pub note : LogEntry → Action (Unit {0})
  note e r = (Result.done tt, record r { log = e ∷ r.log })

  abbrev pub kept : LogEntry → Option Raised × World → List LogEntry → Result (Unit {0}) × Run
  kept e (none, w) log = (Result.done tt, record { world = w; log = e ∷ log })
  kept e (some x, w) log = (Result.raised x, record { world = w; log = log })

  -- `self.events.append`, if there is a store
  unfoldable pub emit : LogEntry → Action (Unit {0})
  emit e r = if has_events then kept e (append e r.world) r.log else (Result.done tt, r)
