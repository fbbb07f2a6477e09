-- ===== src/Tools/Spec.antt =====
-- `ToolSpec` and `ToolResult` of src/aegisrun/tools/spec.py, and what `ToolRegistry` of
-- src/aegisrun/tools/registry.py returns. The handlers of the tools are part of the surroundings.
use equi_seek.Prelude.{
  ℕ, String, Bool, true, not, ◌&&◌, Option, none, some, List, elem, ltb, if◌then◌else◌,
}
use equi_seek.Dict.{Dict, lookup}
use equi_seek.Data.Json.{Value}

pub data RiskLevel : Type 0 where
  low : RiskLevel
  medium : RiskLevel
  high : RiskLevel

pub record ToolSpec : Type 0 where
  pub name : String
  pub version : String
  pub description : String
  pub input_schema : Value
  pub risk : RiskLevel
  pub side_effect : Bool
  pub timeout_seconds : ℕ
  pub required_capabilities : List String
  pub concurrency_safe : Bool

-- `__post_init__`
unfoldable pub is_valid_spec : ToolSpec → Bool
is_valid_spec s = ltb 0 s.timeout_seconds && not (s.concurrency_safe && s.side_effect)

pub record ToolResult : Type 0 where
  pub summary : String
  pub content : Value
  pub artifact_id : Option String
  pub external_reference : Option String

-- an exception, and whether it is an `Exception`, not only a `BaseException`
pub record Raised : Type 0 where
  pub class_name : String
  pub message : String
  pub is_exception : Bool

pub data Result (A : Type 0) : Type 0 where
  done : A → Result A
  raised : Raised → Result A

-- what the pipeline reads of a `PolicySnapshot`
pub record ToolPolicy : Type 0 where
  pub allowed_tools : List String
  pub approval_required : List String

abbrev pub policy_denied : String → Raised
policy_denied message = record {
  class_name = "PolicyDeniedError";
  message = message;
  is_exception = true;
}

-- `get`
abbrev pub known_tool : Option ToolSpec → Result ToolSpec
known_tool none = Result.raised (policy_denied "unknown tool")
known_tool (some spec) = Result.done spec

unfoldable pub get_tool : String → Dict ToolSpec → Result ToolSpec
get_tool name tools = known_tool (lookup name tools)

-- the message of the first error is a `ValueError`
abbrev pub without_errors : Option String → ToolSpec → Result ToolSpec
without_errors none spec = Result.done spec
without_errors (some message) spec =
    Result.raised (record { class_name = "ValueError"; message = message; is_exception = true })

module _ (first_error : Value → Value → Option String) where
  abbrev pub check_arguments : Value → Result ToolSpec → Result ToolSpec
  check_arguments arguments (Result.done spec) =
      without_errors (first_error spec.input_schema arguments) spec
  check_arguments arguments (Result.raised e) = Result.raised e

  -- `validate`; the first error of the JSON schema is an argument
  unfoldable pub validate_call :
      (name : String) → Value → ToolPolicy → Dict ToolSpec → Result ToolSpec
  validate_call name arguments policy tools =
      if elem name policy.allowed_tools
      then check_arguments arguments (get_tool name tools)
      else Result.raised (policy_denied "tool is not allowed")
