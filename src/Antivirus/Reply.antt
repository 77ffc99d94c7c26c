-- ===== src/Antivirus/Reply.antt =====
-- `parseClamdReply` and the verdicts of apps/worker/src/antivirus/antivirus.ts. A text is the list of
-- its UTF-16 code units.
use legaltech_colombia.Prelude.{
  ℕ, ◌-◌, Bool, ◌&&◌, ◌||◌, not, Option, none, some, List, [], ◌∷◌, ltb, leb, ◌==◌, if◌then◌else◌,
  length, take, drop, any, all,
}
use legaltech_colombia.Sanitize.Bytes.{equal_bytes}

abbrev pub Text : Type 0
Text = List ℕ

pub data ScanVerdict : Type 0 where
  clean : ScanVerdict
  infected : Text → ScanVerdict

-- The messages of an `AntivirusError`.
pub data AntivirusError : Type 0 where
  unexpected_reply no_answer reply_too_long no_verdict unavailable : AntivirusError

-- `reply.replace(/\0$/, "")`
abbrev pub trim_nul : Text → Text
trim_nul [] = []
trim_nul (x ∷ []) = if x == 0 then [] else x ∷ []
trim_nul (x ∷ y ∷ ys) = x ∷ trim_nul (y ∷ ys)

abbrev pub stream_prefix : Text
stream_prefix = b's' ∷ b't' ∷ b'r' ∷ b'e' ∷ b'a' ∷ b'm' ∷ b':' ∷ b' ' ∷ []

abbrev pub found_suffix : Text
found_suffix = b' ' ∷ b'F' ∷ b'O' ∷ b'U' ∷ b'N' ∷ b'D' ∷ []

abbrev pub clean_line : Text
clean_line = b's' ∷ b't' ∷ b'r' ∷ b'e' ∷ b'a' ∷ b'm' ∷ b':' ∷ b' ' ∷ b'O' ∷ b'K' ∷ []

-- What `.` does not match.
abbrev pub is_line_terminator : ℕ → Bool
is_line_terminator c = c == 0x0a || (c == 0x0d || (c == 0x2028 || c == 0x2029))

-- What stands between the prefix and the suffix of a line that has both.
abbrev pub between : Text → Text
between line = take (length line - 14) (drop 8 line)

-- `/^stream: (.+) FOUND$/`
abbrev pub found_name : Text → Option Text
found_name line =
    if ltb (length line) 15
    then none
    else if not (equal_bytes (take 8 line) stream_prefix)
    then none
    else if not (equal_bytes (drop (length line - 14) (drop 8 line)) found_suffix)
    then none
    else if any is_line_terminator (between line)
    then none
    else some (between line)

-- `[A-Za-z0-9_.:\-/]`
abbrev pub is_signature_unit : ℕ → Bool
is_signature_unit c =
    leb b'A' c && leb c b'Z'
    || (leb b'a' c && leb c b'z'
        || (leb b'0' c && leb c b'9'
            || (c == b'_' || (c == b'.' || (c == b':' || (c == b'-' || c == b'/'))))))

-- `SIGNATURE`
abbrev pub is_signature : Text → Bool
is_signature name = leb 1 (length name) && leb (length name) 200 && all is_signature_unit name

abbrev pub signature_verdict : Option Text → Option ScanVerdict
signature_verdict none = none
signature_verdict (some name) = if is_signature name then some (infected name) else none

-- `none` is the AntivirusError that an unexpected reply throws.
unfoldable pub parse_clamd_reply : Text → Option ScanVerdict
parse_clamd_reply reply =
    if equal_bytes (trim_nul reply) clean_line
    then some clean
    else signature_verdict (found_name (trim_nul reply))
