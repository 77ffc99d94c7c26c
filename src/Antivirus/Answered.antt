-- ===== src/Antivirus/Answered.antt =====
-- A scan that clamd answers settles with that answer.
use mathlib.Core.List.{append_assoc, append-nil}
use legaltech_colombia.Prelude.{
  ◌≤◌, none, some, List, [], ◌∷◌, ◌++◌, ◌≡◌, refl, sym, subst, arith, length, length-append,
}
use legaltech_colombia.Sanitize.Bytes.{Bytes}
use legaltech_colombia.Antivirus.Reply.{Text, ScanVerdict, parse_clamd_reply}
use legaltech_colombia.Antivirus.Lines.{Announces, parse_clamd_reply_iff}
use legaltech_colombia.Antivirus.Socket.{
  resolved, Scan, scan_started, ClamdEvent, connected, ended, data_received, on_data, on_end,
  handle, scan,
}
use legaltech_colombia.Antivirus.Strict.{settled-stays, taken}

-- The pieces of an answer, as they arrive.
abbrev pub arrivals : List Bytes → List ClamdEvent
arrivals [] = []
arrivals (d ∷ ds) = data_received d ∷ arrivals ds

abbrev pub joined : List Bytes → Bytes
joined [] = []
joined (d ∷ ds) = d ++ joined ds

module _ (utf8 : Bytes → Text) (content : Bytes) where
  answered :
      (ds : List Bytes) (rest : List ClamdEvent) (s : Scan) (v : ScanVerdict)
      → s.settled ≡ none
      → s.received ≡ length s.chunks
      → length (s.chunks ++ joined ds) ≤ 1024
      → parse_clamd_reply (utf8 (s.chunks ++ joined ds)) ≡ some v
      → (scan utf8 content (arrivals ds ++ (ended ∷ rest)) s).settled ≡ some (resolved v)
  unfolding scan
  answered [] rest s v fresh counted small reads =
      let read : parse_clamd_reply (utf8 s.chunks) ≡ some v =
        subst (λ c. parse_clamd_reply (utf8 c) ≡ some v) (append-nil s.chunks) reads in
      settled-stays utf8 content rest (on_end utf8 content s) (resolved v) (rw (fresh, read) refl)
  answered (d ∷ ds) rest s v fresh counted small reads =
      let whole = sym (append_assoc s.chunks d (joined ds)) in
      let size = length-append (s.chunks ++ d) (joined ds) in
      let fits = subst (λ c. length c ≤ 1024) whole small in
      let here = length-append s.chunks d in
      let kept : on_data d s ≡ taken d s = ground arith in
      subst (λ z. (scan utf8 content (arrivals ds ++ (ended ∷ rest)) z).settled ≡ some (resolved v))
        (sym kept)
        (answered ds rest (taken d s) v fresh (omega arith) fits
          (subst (λ c. parse_clamd_reply (utf8 c) ≡ some v) whole reads))

  -- When the socket connects, delivers in any pieces an answer of at most 1024 bytes whose text is the
  -- line of a verdict, with at most one NUL after it, and ends, the scan resolves with that verdict,
  -- whatever the socket does afterwards.
  pub scan_answered :
      (ds : List Bytes) (rest : List ClamdEvent) (v : ScanVerdict)
      → length (joined ds) ≤ 1024
      → Announces (utf8 (joined ds)) v
      → (scan utf8 content (connected ∷ (arrivals ds ++ (ended ∷ rest))) scan_started).settled
        ≡ some (resolved v)
  unfolding scan
  scan_answered ds rest v small a =
      answered ds rest (handle utf8 content connected scan_started) v refl refl small
        ((parse_clamd_reply_iff (utf8 (joined ds)) v).1 a)
