-- ===== src/Antivirus/Socket.antt =====
-- `ClamAvProvider.scan`: what the promise keeps between the events of its socket, and one handler for
-- each event.
use legaltech_colombia.Prelude.{
  ℕ, zero, suc, ◌+◌, ◌/◌, ◌%◌, Bool, true, false, Option, none, some, List, [], ◌∷◌, ◌++◌, ltb,
  if◌then◌else◌, is_some, length, take, drop,
}
use legaltech_colombia.Sanitize.Bytes.{Bytes}
use legaltech_colombia.Antivirus.Reply.{
  Text, ScanVerdict, AntivirusError, unexpected_reply, no_answer, reply_too_long, no_verdict,
  unavailable, parse_clamd_reply,
}

-- How the promise ends.
pub data Settlement : Type 0 where
  resolved : ScanVerdict → Settlement
  rejected : AntivirusError → Settlement

pub record Scan : Type 0 where
  -- `Buffer.concat(chunks)`
  pub chunks : Bytes
  pub received : ℕ
  pub timer : Bool
  pub destroyed : Bool
  pub written : List Bytes
  pub settled : Option Settlement

abbrev pub scan_started : Scan
scan_started = record {
  chunks = [];
  received = 0;
  timer = true;
  destroyed = false;
  written = [];
  settled = none;
}

pub data ClamdEvent : Type 0 where
  connected ended closed errored timed_out : ClamdEvent
  data_received : Bytes → ClamdEvent

abbrev pub chunk_bytes : ℕ
chunk_bytes = 65536

abbrev pub max_reply_bytes : ℕ
max_reply_bytes = 1024

abbrev pub fail : AntivirusError → Scan → Scan
fail e s =
    if is_some s.settled then s else record s { settled = some (rejected e); destroyed = true }

abbrev pub clear_timer : Scan → Scan
clear_timer s = record s { timer = false }

abbrev pub on_data : Bytes → Scan → Scan
on_data d s =
    if ltb max_reply_bytes (s.received + length d)
    then fail reply_too_long (record s { received = s.received + length d })
    else record s { received = s.received + length d; chunks = s.chunks ++ d }

abbrev pub conclude : Option ScanVerdict → Scan → Scan
conclude none s = fail unexpected_reply s
conclude (some v) s = record s { settled = some (resolved v) }

-- `writeUInt32BE`
abbrev pub uint32_be : ℕ → Bytes
uint32_be n = n / 16777216 % 256 ∷ n / 65536 % 256 ∷ n / 256 % 256 ∷ n % 256 ∷ []

-- The loop over the content, on what follows `offset`; its length is enough fuel.
unfoldable pub chunk_writes : ℕ → Bytes → List Bytes
chunk_writes zero rest = []
chunk_writes (suc f) [] = []
chunk_writes (suc f) (x ∷ xs) =
    uint32_be (length (take chunk_bytes (x ∷ xs)))
    ∷ take chunk_bytes (x ∷ xs)
    ∷ chunk_writes f (drop chunk_bytes (x ∷ xs))

-- "zINSTREAM\0"
abbrev pub instream_command : Bytes
instream_command = b'z' ∷ b'I' ∷ b'N' ∷ b'S' ∷ b'T' ∷ b'R' ∷ b'E' ∷ b'A' ∷ b'M' ∷ 0 ∷ []

abbrev pub instream : Bytes → List Bytes
instream content =
    instream_command ∷ (chunk_writes (length content) content ++ ((0 ∷ 0 ∷ 0 ∷ 0 ∷ []) ∷ []))

module _ (utf8 : Bytes → Text) (content : Bytes) where
  abbrev pub on_end : Scan → Scan
  on_end s =
      if is_some s.settled
      then clear_timer s
      else conclude (parse_clamd_reply (utf8 s.chunks)) (clear_timer s)

  abbrev pub handle : ClamdEvent → Scan → Scan
  handle connected s = record s { written = s.written ++ instream content }
  handle (data_received d) s = on_data d s
  handle ended s = on_end s
  handle closed s = fail no_verdict (clear_timer s)
  handle errored s = fail unavailable s
  handle timed_out s = if s.timer then fail no_answer s else s

  unfoldable pub scan : List ClamdEvent → Scan → Scan
  scan [] s = s
  scan (e ∷ es) s = scan es (handle e s)
