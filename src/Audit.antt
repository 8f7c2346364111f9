-- ===== src/Audit.antt =====
-- The crate `lockrail-audit`: crates/lockrail-audit/src/lib.rs. A log is a file with one event in
-- JSON on each line. `append` holds a lock from its read to its write.
pub mod Chain
pub mod Tamper
pub mod Append
mod Tests
use mathlib.Core.Option.{get_or}
use mathlib.Core.Option
use lockrail.Prelude.{
  ℕ, suc, ◌+◌, Bool, true, false, not, Option, none, some, List, [], ◌∷◌, ◌++◌, ◌==◌, if◌then◌else◌,
  length, keep, get_last?, Result, ok, err, ◌>>=◌, ok_or,
}
use lockrail.Prelude.Text.{Text, codes, text_eq, split}
use lockrail.Prelude.Text.Trim.{is_blank}
use lockrail.Protocol.Json.{Json}

pub record AuditEvent : Type 0 where
  pub sequence : ℕ
  pub timestamp : ℕ
  pub actor : Text
  pub action : Text
  pub resource : Text
  pub metadata : Json
  pub previous_hash : Text
  pub event_hash : Text

-- The fields that the hash of an event covers.
pub record Covered : Type 0 where
  pub sequence : ℕ
  pub timestamp : ℕ
  pub actor : Text
  pub action : Text
  pub resource : Text
  pub metadata : Json
  pub previous_hash : Text

pub data AuditError : Type 0 where
  io json : AuditError

-- serde_json and sha2 as parameters: the bytes of the object that is hashed, the digest in
-- hexadecimal, and the text of an event and back.
pub record AuditCodec : Type 0 where
  pub to_vec : Covered → Option Text
  pub sha256 : Text → Text
  pub to_string : AuditEvent → Option Text
  pub from_str : Text → Option AuditEvent

abbrev pub genesis_hash : Text
genesis_hash = codes "sha256:0000000000000000000000000000000000000000000000000000000000000000"

abbrev pub covered : AuditEvent → Covered
covered e = record {
  sequence = e.sequence;
  timestamp = e.timestamp;
  actor = e.actor;
  action = e.action;
  resource = e.resource;
  metadata = e.metadata;
  previous_hash = e.previous_hash;
}

-- `str::lines`: a line's end is a line feed, with a carriage return before it or not.
abbrev pub newline : ℕ
newline = 10

pub strip_cr : Text → Text
strip_cr [] = []
strip_cr (c ∷ []) = if c == 13 then [] else c ∷ []
strip_cr (c ∷ d ∷ s) = c ∷ strip_cr (d ∷ s)

pub pieces : List Text → List Text
pieces [] = []
pieces ([] ∷ []) = []
pieces ((c ∷ s) ∷ []) = (c ∷ s) ∷ []
pieces (p ∷ q ∷ ps) = strip_cr p ∷ pieces (q ∷ ps)

pub lines : Text → List Text
unfolding pieces strip_cr
lines text = pieces (split text newline)

module _ (codec : AuditCodec) where
  pub parse : List Text → Result AuditError (List AuditEvent)
  parse [] = ok []
  parse (l ∷ ls) = do e ← ok_or (codec.from_str l) json; es ← parse ls; ok (e ∷ es)

  -- `none` is a file that does not exist.
  unfoldable pub read_all : Option Text → Result AuditError (List AuditEvent)
  unfolding parse lines
  read_all none = ok []
  read_all (some text) = parse (keep (λ l. not (is_blank l)) (lines text))

  unfoldable pub event_hash : AuditEvent → Result AuditError Text
  event_hash e = do
    bytes ← ok_or (codec.to_vec (covered e)) json
    ok (codes "sha256:" ++ codec.sha256 bytes)

-- Whether the directory and the lock, and the write, go well, and what a failed write leaves.
pub record Disk : Type 0 where
  pub prepared : Bool
  pub readable : Bool
  pub writable : Bool
  pub left : Option Text

module _ (codec : AuditCodec) where
  abbrev pub last_hash : List AuditEvent → Text
  last_hash rows =
      get_or (Option.map (λ (e : AuditEvent). e.event_hash) (get_last? rows)) genesis_hash

  -- The event that is added behind the rows, at the clock's value `now`, before it has its hash.
  abbrev pub draft :
      (now : ℕ) (action resource : Text) (metadata : Json) → List AuditEvent → AuditEvent
  draft now action resource metadata rows = record {
    sequence = length rows + 1;
    timestamp = now;
    actor = codes "local-user";
    action = action;
    resource = resource;
    metadata = metadata;
    previous_hash = last_hash rows;
    event_hash = [];
  }

  unfoldable pub next_event :
      (now : ℕ) (action resource : Text) (metadata : Json)
      → List AuditEvent
      → Result AuditError AuditEvent
  next_event now action resource metadata rows = do
    let event = draft now action resource metadata rows
    hash ← event_hash codec event
    ok (record event { event_hash = hash })

  -- `writeln!` at the end of the file, which is created before the event's text is made.
  write_line :
      Disk
      → Option Text
      → AuditEvent
      → Result AuditError Text
      → Result AuditError AuditEvent × Option Text
  write_line disk file event (err e) = (err e, some (get_or file []))
  write_line disk file event (ok line) =
      if disk.writable
      then (ok event, some (get_or file [] ++ (line ++ (newline ∷ []))))
      else (err io, disk.left)

  add_event :
      Disk → Option Text → Result AuditError AuditEvent → Result AuditError AuditEvent × Option Text
  add_event disk file (err e) = (err e, file)
  add_event disk file (ok event) = write_line disk file event (ok_or (codec.to_string event) json)

  unfoldable pub append :
      Disk
      → (now : ℕ) (action resource : Text) (metadata : Json) → Option Text
      → Result AuditError AuditEvent × Option Text
  unfolding write_line add_event
  append disk now action resource metadata file =
      if not disk.prepared
      then (err io, file)
      else if not disk.readable
      then (err io, file)
      else add_event disk file
          (do rows ← read_all codec file; next_event now action resource metadata rows)

-- What `verify` says beside its verdict.
pub data Message : Type 0 where
  sequence_mismatch previous_hash_mismatch event_hash_mismatch : ℕ → Message
  events : ℕ → Message

module _ (codec : AuditCodec) where
  -- The loop from the row `seq`, where `prev` is the hash of the row before; `total` is the number
  -- of rows.
  pub verify_rows :
      (total seq : ℕ) (prev : Text) → List AuditEvent → Result AuditError (Bool × Message)
  verify_rows total seq prev [] = ok (true, events total)
  verify_rows total seq prev (e ∷ es) =
      let rest = verify_rows total (seq + 1) e.event_hash es in
      if not (e.sequence == seq)
      then ok (false, sequence_mismatch seq)
      else if not (text_eq e.previous_hash prev)
      then ok (false, previous_hash_mismatch seq)
      else (event_hash codec e >>= λ expected.
          if not (text_eq e.event_hash expected) then ok (false, event_hash_mismatch seq) else rest)

  pub verify : Option Text → Result AuditError (Bool × Message)
  unfolding verify_rows
  verify file = do rows ← read_all codec file; verify_rows (length rows) 1 genesis_hash rows
