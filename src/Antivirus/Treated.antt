-- ===== src/Antivirus/Treated.antt =====
-- The treatment of apps/worker/src/scan/scan-document.ts with `ClamAvProvider` as its antivirus.
use Prim.Native.String.{String}
use legaltech_colombia.Prelude.{
  Bool, true, Option, none, some, List, [], ◌∷◌, ◌++◌, ◌≡◌, refl, subst, ap, arith, is_some, length,
  ◌||◌, ◌≤◌, ℕ,
}
use legaltech_colombia.Sanitize.Bytes.{Bytes}
use legaltech_colombia.Common.{Result, ok, err, failure, antivirus_error, Action}
use legaltech_colombia.World.{World, ScanVerdict, clean_verdict, infected_verdict}
use legaltech_colombia.Antivirus.Reply.{Text, clean, infected, clean_line, parse_clamd_reply}
use legaltech_colombia.Antivirus.Reply
use legaltech_colombia.Antivirus.Socket.{
  Settlement, resolved, rejected, Scan, scan_started, ClamdEvent, connected, ended, closed, errored,
  timed_out, data_received, handle, conclude, clear_timer, scan,
}
use legaltech_colombia.Antivirus.Lines.{Announces}
use legaltech_colombia.Antivirus.Strict.{before_end, scan_strict}
use legaltech_colombia.Scan.Treatment.{ScanDocumentDeps, scan_document, ScanOutcome}
use legaltech_colombia.Scan.Outcome.{CleanRun, clean_outcome}

-- The verdict in the worker's types; `name` reads the text of a signature.
abbrev pub verdict_of : (Text → String) → Reply.ScanVerdict → ScanVerdict
verdict_of name clean = clean_verdict
verdict_of name (infected t) = infected_verdict (name t)

-- What the promise gives. A promise that stays pending, which no scan is left with, is an error.
abbrev pub settled_result : (Text → String) → Option Settlement → Result ScanVerdict
settled_result name (some (resolved v)) = ok (verdict_of name v)
settled_result name (some (rejected e)) = err (failure antivirus_error)
settled_result name none = err (failure antivirus_error)

module _ (utf8 : Bytes → Text) (content : Bytes) where
  conclude-settled :
      (o : Option Reply.ScanVerdict) (s : Scan) → is_some (conclude o s).settled ≡ true
  conclude-settled none s = ground arith
  conclude-settled (some v) s = refl

  -- The timer runs while the promise is pending.
  is_covered : Scan → Bool
  is_covered s = s.timer || is_some s.settled

  handle-covered :
      (e : ClamdEvent) (s : Scan)
      → is_covered s ≡ true
      → is_covered (handle utf8 content e s) ≡ true
  unfolding is_covered
  handle-covered connected s h = h
  handle-covered (data_received d) s h = ground arith
  handle-covered ended s h =
      let read = conclude-settled (parse_clamd_reply (utf8 s.chunks)) (clear_timer s) in
      ground arith
  handle-covered closed s h = ground arith
  handle-covered errored s h = ground arith
  handle-covered timed_out s h = ground arith

  covered-settles :
      (es : List ClamdEvent) (s : Scan)
      → is_covered s ≡ true
      → is_some (scan utf8 content (es ++ (timed_out ∷ [])) s).settled ≡ true
  unfolding scan is_covered
  covered-settles [] s h = ground arith
  covered-settles (e ∷ es) s h = covered-settles es (handle utf8 content e s) (handle-covered e s h)

  -- However the socket behaves, the promise is settled once the timer has had its time.
  pub scan_settles :
      (es : List ClamdEvent)
      → is_some (scan utf8 content (es ++ (timed_out ∷ [])) scan_started).settled ≡ true
  unfolding is_covered
  scan_settles es = covered-settles es scan_started refl

before_end-timed_out : (es : List ClamdEvent) → before_end (es ++ (timed_out ∷ [])) ≡ before_end es
before_end-timed_out [] = refl
before_end-timed_out (data_received d ∷ es) = ap (λ t. d ++ t) (before_end-timed_out es)
before_end-timed_out (ended ∷ es) = refl
before_end-timed_out (connected ∷ es) = before_end-timed_out es
before_end-timed_out (closed ∷ es) = before_end-timed_out es
before_end-timed_out (errored ∷ es) = before_end-timed_out es
before_end-timed_out (timed_out ∷ es) = before_end-timed_out es

-- `socket` gives the events of a scan's socket, up to the time of the timer, and `meanwhile` what
-- happens to the world until the promise settles.
module _ (utf8 : Bytes → Text) (name : Text → String) (socket : Bytes → World → List ClamdEvent)
    (meanwhile : Bytes → World → World) where
  abbrev pub clam_av_scan : Bytes → Action World ScanVerdict
  clam_av_scan content w = (
    settled_result name
        (scan utf8 content (socket content w ++ (timed_out ∷ [])) scan_started).settled,
    meanwhile content w,
  )

  abbrev pub with_clam_av : ScanDocumentDeps → ScanDocumentDeps
  with_clam_av deps = record deps { scan = clam_av_scan }

  clean_result :
      (o : Option Settlement) → settled_result name o ≡ ok clean_verdict → o ≡ some (resolved clean)
  clean_result none e = cc
  clean_result (some (rejected x)) e = cc
  clean_result (some (resolved clean)) e = refl
  clean_result (some (resolved (infected t))) e = cc

  -- A treatment with ClamAV ends in CLEAN only when the document was claimed, the object of the claim
  -- downloaded whole, and clamd's answer on that content, before its first end and within 1024 bytes,
  -- was exactly "stream: OK", with at most one NUL after it.
  pub clean_needs_ok :
      (deps : ScanDocumentDeps) (id : ℕ) (w w' : World)
      → scan_document (with_clam_av deps) id w ≡ (ok ScanOutcome.clean, w')
      → (run : CleanRun (with_clam_av deps) id w w') × Announces
          (utf8 (before_end (socket run.content run.w2)))
          clean
        × (length (before_end (socket run.content run.w2)) ≤ 1024)
  clean_needs_ok deps id w w' h =
      let run = clean_outcome (with_clam_av deps) id w w' h in
      let events = socket run.content run.w2 in
      let answer = ap (λ r. r.0) run.scanned in
      let heard =
        scan_strict utf8 run.content (events ++ (timed_out ∷ [])) clean (clean_result _ answer) in
      let said =
        subst (λ t. Announces (utf8 t) clean × (length t ≤ 1024)) (before_end-timed_out events)
          heard in
      (run, said.0, said.1)
