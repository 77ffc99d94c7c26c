-- ===== src/Tests/Replies.antt =====
-- Answers of clamd at concrete inputs.
use legaltech_colombia.Prelude.{
  true, ◌≡◌, is_some, ◌↔◌, ◌≤◌, refl, some, List, [], ◌∷◌, ◌++◌, length, inr, arith,
}
use legaltech_colombia.Sanitize.Bytes.{Bytes}
use legaltech_colombia.Common.{ok}
use legaltech_colombia.World.{World}
use legaltech_colombia.Scan
use legaltech_colombia.Scan.Treatment.{ScanDocumentDeps, ScanOutcome, scan_document}
use legaltech_colombia.Scan.Outcome.{CleanRun}
use legaltech_colombia.Tests.Data.{deps, world}
use legaltech_colombia.Antivirus.Treated.{with_clam_av, clean_needs_ok, scan_settles}
use legaltech_colombia.Antivirus.Reply.{
  Text, clean, infected, unexpected_reply, stream_prefix, found_suffix, parse_clamd_reply,
}
use legaltech_colombia.Antivirus.Socket.{
  resolved, rejected, scan_started, ClamdEvent, connected, timed_out, ended, closed, data_received,
  scan,
}
use legaltech_colombia.Antivirus.Lines.{Announces, parse_clamd_reply_iff}
use legaltech_colombia.Antivirus.Strict.{before_end}
use legaltech_colombia.Antivirus.Answered.{arrivals, scan_answered}

-- The decoding of ASCII.
abbrev ascii : Bytes → Text
ascii b = b

abbrev eicar : Text
eicar = b'E' ∷ b'i' ∷ b'c' ∷ b'-' ∷ b'1' ∷ []

abbrev eicar_line : Text
eicar_line = stream_prefix ++ (eicar ++ (found_suffix ++ (0 ∷ [])))

abbrev answer : List ClamdEvent
answer =
    connected
    ∷ data_received stream_prefix
    ∷ data_received (b'O' ∷ b'K' ∷ 0 ∷ [])
    ∷ ended
    ∷ closed
    ∷ []

parse_clamd_reply_iff_example :
    (parse_clamd_reply eicar_line ≡ some (infected eicar)) ↔ Announces eicar_line (infected eicar)
parse_clamd_reply_iff_example = parse_clamd_reply_iff eicar_line (infected eicar)

eicar_announced : Announces eicar_line (infected eicar)
unfolding Announces
eicar_announced = (refl, inr refl)

scan_answered_example :
    (scan ascii
      (1 ∷ [])
      (connected ∷ (arrivals (eicar_line ∷ []) ++ (ended ∷ [])))
      scan_started).settled
    ≡ some (resolved (infected eicar))
scan_answered_example =
    scan_answered ascii (1 ∷ []) (eicar_line ∷ []) [] (infected eicar) (omega arith) eicar_announced

-- An answer that the connection's end cuts short is no verdict.
cut_answer :
    (scan ascii [] (connected ∷ data_received stream_prefix ∷ ended ∷ []) scan_started).settled
    ≡ some (rejected unexpected_reply)
unfolding scan parse_clamd_reply
cut_answer = refl

-- A worker whose clamd always answers "stream: OK".
abbrev clamd_deps : ScanDocumentDeps
clamd_deps = with_clam_av ascii (λ t. "Eicar-1") (λ content w. answer) (λ content w. w) deps

abbrev cleaned_world : World
cleaned_world = (scan_document clamd_deps 11 world).1

cleans : scan_document clamd_deps 11 world ≡ (ok ScanOutcome.clean, cleaned_world)
unfolding scan_document Scan.Repository.claim Scan.Repository.mark_clean scan parse_clamd_reply
cleans = refl

clean_needs_ok_example :
    (run : CleanRun clamd_deps 11 world cleaned_world) × Announces (ascii (before_end answer)) clean
    × (length (before_end answer) ≤ 1024)
clean_needs_ok_example =
    clean_needs_ok ascii (λ t. "Eicar-1") (λ content w. answer) (λ content w. w) deps 11 world
      cleaned_world cleans

scan_settles_example :
    is_some (scan ascii [] (connected ∷ (timed_out ∷ [])) scan_started).settled ≡ true
scan_settles_example = scan_settles ascii [] (connected ∷ [])
