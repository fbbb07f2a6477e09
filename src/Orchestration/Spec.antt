-- ===== src/Orchestration/Spec.antt =====
-- `SAFE_ID`, `TaskSpec` and `TaskRecord` of src/aegisrun/orchestration/models.py.
-- Limits are natural numbers here: a negative one is refused in Python as 0 is.
use Prim.Native.Char.{code}
use equi_seek.Prelude.{
  ℕ, suc, String, ◌==◌, Bool, true, false, not, ◌&&◌, ◌||◌, Option, none, some, List, [], ltb, leb,
  nat_eq, any, if◌then◌else◌,
}
use equi_seek.Dict.{Dict}
use equi_seek.Data.Json.{Value}
use equi_seek.Orchestration.Status.{TaskStatus}

-- `[A-Za-z0-9]`
is_alnum : ℕ → Bool
is_alnum c = (leb b'A' c && leb c b'Z') || (leb b'a' c && leb c b'z') || (leb b'0' c && leb c b'9')

-- `[A-Za-z0-9_.-]`
is_word : ℕ → Bool
unfolding is_alnum
is_word c = is_alnum c || nat_eq c b'_' || nat_eq c b'.' || nat_eq c b'-'

-- `[A-Za-z0-9_.-]{0,n}` up to the end of the text
words_up_to : ℕ → String → Bool
unfolding is_word
words_up_to n String.[] = true
words_up_to ℕ.zero (String.◌∷◌ c s) = false
words_up_to (suc n) (String.◌∷◌ c s) = is_word (code c) && words_up_to n s

-- `SAFE_ID.fullmatch(s) and s not in {".", ".."}`
unfoldable pub is_safe_id : String → Bool
unfolding words_up_to
is_safe_id String.[] = false
is_safe_id (String.◌∷◌ c s) =
    is_alnum (code c) && words_up_to 127 s && not (String.◌∷◌ c s == "." || String.◌∷◌ c s == "..")

pub record TaskSpec : Type 0 where
  pub id : String
  pub title : String
  pub handler : String
  pub depends_on : List String
  pub description : String
  pub agent : String
  pub skills : List String
  pub required_capabilities : List String
  pub max_attempts : ℕ
  pub timeout_seconds : ℕ
  pub network_allowed : Bool
  pub require_isolation : Bool
  pub approval_required : Bool
  pub side_effect : Bool
  pub idempotency_key : Option String
  pub metadata : Dict Value

pub data SpecError : Type 0 where
  unsafe_id unsafe_agent unsafe_skills unsafe_capabilities bad_limits no_idempotency_key : SpecError

-- `not key`: missing or empty
abbrev is_blank : Option String → Bool
is_blank none = true
is_blank (some s) = s == ""

-- `TaskSpec.__post_init__`: the first check that refuses the spec
unfoldable pub check_spec : TaskSpec → Option SpecError
check_spec s =
    if not (is_safe_id s.id)
    then some unsafe_id
    else if not (is_safe_id s.agent)
    then some unsafe_agent
    else if any (λ name. not (is_safe_id name)) s.skills
    then some unsafe_skills
    else if any (λ name. not (is_safe_id name)) s.required_capabilities
    then some unsafe_capabilities
    else if ltb s.max_attempts 1 || ltb s.timeout_seconds 1
    then some bad_limits
    else if s.side_effect && is_blank s.idempotency_key
    then some no_idempotency_key
    else none

-- the defaults of the dataclass
abbrev pub default_spec : String → String → String → TaskSpec
default_spec id title handler = record {
  id = id;
  title = title;
  handler = handler;
  depends_on = [];
  description = "";
  agent = "local-worker";
  skills = [];
  required_capabilities = [];
  max_attempts = 1;
  timeout_seconds = 60;
  network_allowed = false;
  require_isolation = false;
  approval_required = false;
  side_effect = false;
  idempotency_key = none;
  metadata = [];
}

pub record TaskRecord : Type 0 where
  pub spec : TaskSpec
  pub status : TaskStatus
  pub attempts : ℕ
  pub recoveries : ℕ
  pub summary : Option String
  pub result : Dict Value
  pub error : Option String
  pub started_at : Option String
  pub finished_at : Option String
  pub approved : Bool

-- `TaskRecord(spec)`
abbrev pub new_record : TaskSpec → TaskRecord
new_record spec = record {
  spec = spec;
  status = TaskStatus.pending;
  attempts = 0;
  recoveries = 0;
  summary = none;
  result = [];
  error = none;
  started_at = none;
  finished_at = none;
  approved = false;
}
