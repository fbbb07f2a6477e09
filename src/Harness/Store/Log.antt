-- ===== src/Harness/Store/Log.antt =====
-- `_load_sync` and `_append_sync` of `WorkspaceEventStore` in src/aegisrun/harness/events.py. Not
-- modelled of the operating system: that a write fails half way, and other writers of the file, such as
-- the thread of a cancelled call that is still writing when the next call begins.
use equi_seek.Prelude.{
  ℕ, ◌+◌, ◌*◌, String, ◌==◌, Bool, true, false, not, ◌&&◌, ◌||◌, Option, none, some, List, [], ◌∷◌,
  ◌++◌, ltb, nat_eq,
}
use equi_seek.Data.Json.{Value}
use equi_seek.Harness.Checked.{Checked, ok, violated, demand, ◌>>=◌}
use equi_seek.Harness.Events.{AgentEvent}
use equi_seek.Harness.Store.Json.{Interpreter}
use equi_seek.Harness.Store.Record.{to_dict, from_dict, corrupted}

abbrev pub max_event_bytes : ℕ
max_event_bytes = 256 * 1024

module _ (I : Interpreter) where
  open I use {Text, Bytes, dumps, loads, encode, decode, size, joined}

  -- What is at the path. A file is its lines that have ended and the bytes after the last of them.
  pub data File : Type 0 where
    absent : File
    -- a link whose target is there
    link : File
    -- a link whose target is not there; whether it can be created
    dangling : (creatable : Bool) → File
    directory : File
    regular : List Bytes → (tail : Option Bytes) → File

  abbrev pub loads_bytes : Option Text → Option Value
  loads_bytes none = none
  loads_bytes (some t) = loads t

  -- the decoded line has to be an object
  abbrev pub read_object : Option Value → Checked AgentEvent
  read_object none = corrupted "invalid event JSON"
  read_object (some (Value.obj fields)) = from_dict I fields
  read_object (some v) = corrupted "event is not an object"

  unfoldable pub read_record : Bytes → Checked AgentEvent
  read_record raw =
      demand (not (nat_eq (size raw) 0 || ltb max_event_bytes (size raw))) "EventCorruptionError"
        "invalid event record" (read_object (loads_bytes (decode raw)))

  abbrev pub is_of_store : (run_id session_id : String) → AgentEvent → Bool
  is_of_store run_id session_id e = e.run_id == run_id && e.session_id == session_id

  unfoldable pub read_records :
      (run_id session_id : String) → List Bytes → Checked (List AgentEvent)
  read_records run_id session_id [] = ok []
  read_records run_id session_id (raw ∷ rest) = read_record raw >>= λ e.
      demand (is_of_store run_id session_id e) "EventCorruptionError"
        "event log identity does not match its store"
        (read_records run_id session_id rest >>= λ es. ok (e ∷ es))

  -- `_load_sync`; `exists` follows links
  unfoldable pub load_sync : (run_id session_id : String) → File → Checked (List AgentEvent)
  load_sync run_id session_id File.absent = ok []
  load_sync run_id session_id (File.dangling creatable) = ok []
  load_sync run_id session_id File.link = corrupted "event store path is not a regular file"
  load_sync run_id session_id File.directory = corrupted "event store path is not a regular file"
  load_sync run_id session_id (File.regular lines (some tail)) =
      corrupted "event log ends with an incomplete record"
  load_sync run_id session_id (File.regular lines none) = read_records run_id session_id lines

  -- `json.dumps(...).encode()`
  abbrev pub encoded : Option Text → Option Bytes
  encoded none = none
  encoded (some t) = encode t

  -- the line that is begun comes before the bytes, in the same line
  abbrev pub write_line : Bytes → File → Checked File
  write_line raw File.absent = ok (File.regular (raw ∷ []) none)
  write_line raw File.link = corrupted "event store cannot be a symbolic link"
  write_line raw (File.dangling true) = ok File.link
  write_line raw (File.dangling false) = violated "FileNotFoundError" ""
  write_line raw File.directory = violated "IsADirectoryError" ""
  write_line raw (File.regular lines none) = ok (File.regular (lines ++ (raw ∷ [])) none)
  write_line raw (File.regular lines (some tail)) =
      ok (File.regular (lines ++ (joined tail raw ∷ [])) none)

  -- the size is that with the end of the line
  abbrev pub write_record : Option Bytes → File → Checked File
  write_record none file = violated "UnicodeEncodeError" ""
  write_record (some raw) file =
      demand (not (ltb max_event_bytes (size raw + 1))) "EventError"
        "event record exceeds the configured size limit" (write_line raw file)

  abbrev pub is_link : File → Bool
  is_link File.link = true
  is_link file = false

  abbrev pub is_dangling : File → Bool
  is_dangling (File.dangling creatable) = true
  is_dangling file = false

  -- `_append_sync`; `exists` follows links, so it does not see one without its target
  unfoldable pub append_sync : AgentEvent → File → Checked File
  append_sync e file =
      demand (not (is_link file)) "EventCorruptionError" "event store cannot be a symbolic link"
        (write_record (encoded (dumps (Value.obj (to_dict e)))) file)
