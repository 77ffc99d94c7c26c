-- ===== src/Antivirus/Strict.antt =====
-- Which bytes of clamd a verdict stands on.
use mathlib.Core.List.{append_assoc, append-nil}
use legaltech_colombia.Prelude.{
  ◌+◌, ◌≤◌, Option, none, some, List, [], ◌∷◌, ◌++◌, ◌≡◌, refl, sym, ◌∙◌, subst, inl, inr, arith,
  ltb, length, length-append, Bool-cases,
}
use legaltech_colombia.Sanitize.Bytes.{Bytes}
use legaltech_colombia.Antivirus.Reply.{
  Text, ScanVerdict, AntivirusError, unexpected_reply, no_answer, reply_too_long, no_verdict,
  unavailable, parse_clamd_reply,
}
use legaltech_colombia.Antivirus.Lines.{Announces, parse_clamd_reply-Announces}
use legaltech_colombia.Antivirus.Socket.{
  Settlement, resolved, rejected, Scan, scan_started, ClamdEvent, connected, ended, closed, errored,
  timed_out, data_received, clear_timer, on_data, on_end, conclude, handle, scan,
}

-- What was received before the first end.
abbrev pub before_end : List ClamdEvent → Bytes
before_end [] = []
before_end (data_received d ∷ es) = d ++ before_end es
before_end (ended ∷ es) = []
before_end (connected ∷ es) = before_end es
before_end (closed ∷ es) = before_end es
before_end (errored ∷ es) = before_end es
before_end (timed_out ∷ es) = before_end es

-- The state after data that fit.
abbrev pub taken : Bytes → Scan → Scan
taken d s = record s { received = s.received + length d; chunks = s.chunks ++ d }

module _ (utf8 : Bytes → Text) (content : Bytes) where
  pub settled-stays :
      (es : List ClamdEvent) (s : Scan) (x : Settlement)
      → s.settled ≡ some x
      → (scan utf8 content es s).settled ≡ some x
  unfolding scan
  settled-stays [] s x h = h
  settled-stays (e ∷ es) s x h = settled-stays es (handle utf8 content e s) x (one e)
    where
      one : (e : ClamdEvent) → (handle utf8 content e s).settled ≡ some x
      one connected = h
      one (data_received d) = ground arith
      one ended = ground arith
      one closed = ground arith
      one errored = ground arith
      one timed_out = ground arith

  rejected_stays :
      {P : Type 0} (es : List ClamdEvent) (s : Scan) (e : AntivirusError) (v : ScanVerdict)
      → s.settled ≡ some (rejected e)
      → (scan utf8 content es s).settled ≡ some (resolved v)
      → P
  rejected_stays es s e v k h =
      let stays = settled-stays es s (rejected e) k in
      let same : some (rejected e) ≡ some (resolved v) = sym stays ∙ h in cc

  -- What a state before the end of the answer owes to its verdict.
  Stands : List ClamdEvent → Scan → ScanVerdict → Type 0
  Stands es s v =
      Announces (utf8 (s.chunks ++ before_end es)) v × (length (s.chunks ++ before_end es) ≤ 1024)

  read-Stands :
      (es : List ClamdEvent) (s : Scan) (o : Option ScanVerdict) (v : ScanVerdict)
      → parse_clamd_reply (utf8 s.chunks) ≡ o
      → s.settled ≡ none
      → length s.chunks ≤ 1024
      → (scan utf8 content es (conclude o (clear_timer s))).settled ≡ some (resolved v)
      → Announces (utf8 (s.chunks ++ [])) v × (length (s.chunks ++ []) ≤ 1024)
  read-Stands es s none v e fresh small h =
      rejected_stays es (conclude none (clear_timer s)) unexpected_reply v (ground arith) h
  read-Stands es s (some x) v e fresh small h =
      let stays = settled-stays es (conclude (some x) (clear_timer s)) (resolved x) refl in
      let same : some (resolved x) ≡ some (resolved v) = sym stays ∙ h in
      let is_v : x ≡ v = cc in
      subst (λ c. Announces (utf8 c) v × (length c ≤ 1024)) (sym (append-nil s.chunks))
        (
          subst (Announces (utf8 s.chunks)) is_v (parse_clamd_reply-Announces (utf8 s.chunks) x e),
          small,
        )

  scan-Stands :
      (es : List ClamdEvent) (s : Scan) (v : ScanVerdict)
      → s.settled ≡ none
      → s.received ≡ length s.chunks
      → length s.chunks ≤ 1024
      → (scan utf8 content es s).settled ≡ some (resolved v)
      → Stands es s v
  unfolding scan Stands
  scan-Stands [] s v fresh counted small h = cc
  scan-Stands (connected ∷ es) s v fresh counted small h =
      scan-Stands es (handle utf8 content connected s) v fresh counted small h
  scan-Stands (data_received d ∷ es) s v fresh counted small h =
      elim (Bool-cases (ltb 1024 (s.received + length d))) [
        | inl e ↦ rejected_stays es (on_data d s) reply_too_long v (ground arith) h
        | inr e ↦
            let kept : on_data d s ≡ taken d s = ground arith in
            let ends = subst (λ z. (scan utf8 content es z).settled ≡ some (resolved v)) kept h in
            let size = length-append s.chunks d in
            subst (λ c. Announces (utf8 c) v × (length c ≤ 1024))
              (append_assoc s.chunks d (before_end es))
              (scan-Stands es (taken d s) v fresh (ground arith) (ground arith) ends)
      ]
  scan-Stands (ended ∷ es) s v fresh counted small h =
      read-Stands es s (parse_clamd_reply (utf8 s.chunks)) v refl fresh small
        (subst (λ z. (scan utf8 content es z).settled ≡ some (resolved v)) asks h)
    where
      asks : on_end utf8 content s ≡ conclude (parse_clamd_reply (utf8 s.chunks)) (clear_timer s)
      asks = rw fresh refl
  scan-Stands (closed ∷ es) s v fresh counted small h =
      rejected_stays es (handle utf8 content closed s) no_verdict v (ground arith) h
  scan-Stands (errored ∷ es) s v fresh counted small h =
      rejected_stays es (handle utf8 content errored s) unavailable v (ground arith) h
  scan-Stands (timed_out ∷ es) s v fresh counted small h = elim (Bool-cases s.timer) [
    | inl e ↦ rejected_stays es (handle utf8 content timed_out s) no_answer v (ground arith) h
    | inr e ↦
        let unchanged : handle utf8 content timed_out s ≡ s = rw e refl in
        let ends = subst (λ z. (scan utf8 content es z).settled ≡ some (resolved v)) unchanged h in
        scan-Stands es s v fresh counted small ends
  ]

  -- Whatever the socket delivers, in whatever order, a scan resolves with a verdict only when the text
  -- of the bytes received before the first end is exactly the line of that verdict, with at most one
  -- NUL after it: "stream: OK" for a clean file, "stream: <name> FOUND" with a plausible name for an
  -- infected one; and those bytes are at most 1024.
  pub scan_strict :
      (es : List ClamdEvent) (v : ScanVerdict)
      → (scan utf8 content es scan_started).settled ≡ some (resolved v)
      → Announces (utf8 (before_end es)) v × (length (before_end es) ≤ 1024)
  unfolding Stands
  scan_strict es v h = scan-Stands es scan_started v refl refl (omega arith) h
