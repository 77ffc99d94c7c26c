-- ===== src/Scan/Outcome.antt =====
-- What the outcome of `scanDocument` says, for any repository, storage and antivirus.
use legaltech_colombia.Prelude.{
  ◌≢◌, leb, Bool-cases, ◌≤◌, ◌⊎◌, ◌<◌, inr, ◌∙◌, Bool, inl, if◌then◌else◌, sym, refl, ◌==◌, not, ℕ,
  ◌≡◌, true, false, Option, none, some, arith, length,
}
use legaltech_colombia.Common.Runs.{throw_if-ok, bind-ok, catch-cases}
use legaltech_colombia.Common.{modify, err, pure, ◌>>=◌, size_mismatch, failure, Action, Error, ok}
use legaltech_colombia.Database.{jpeg, png, DocumentFileType, pdf, is_pdf, sanitized, StorageKey}
use legaltech_colombia.Sanitize.Bytes.{Bytes, stripped}
use legaltech_colombia.World.{
  orphan_object, add_log, infected_verdict, ScanVerdict, World, StorageProvider, clean_verdict,
}
use legaltech_colombia.Scan.Repository.{ScanClaim}
use legaltech_colombia.Scan.Treatment.{
  ScanOutcome, remove_sanitized_copy, lost, treat_claim, scan_document, conclude, treatment,
  ScanDocumentDeps, clean, recover, strip_metadata, store_sanitized_copy,
}

-- A call that answered.
abbrev pub Answers : {A : Type 0} → Action World A → World → A → World → Type 0
Answers m w a w' = m w ≡ (ok a, w')

-- What is stored for a clean document: nothing for a PDF, the stripped content for an image.
abbrev pub Copied : StorageProvider → ScanClaim → Bytes → Option StorageKey → World → World → Type 0
Copied storage c content none w w' = (is_pdf c.file_type ≡ true) × (w' ≡ w)
Copied storage c content (some key) w w' =
    (is_pdf c.file_type ≡ false)
    × (key ≡ sanitized c.storage_key)
    × ((body : Bytes) × (strip_metadata c.file_type content ≡ stripped body)
        × Answers (storage.put_object key body) w tt w')

-- A whole treatment that ends in CLEAN, call by call.
pub record CleanRun (deps : ScanDocumentDeps) (id : ℕ) (w w' : World) : Type 0 where
  pub claim : ScanClaim
  pub content : Bytes
  pub copy : Option StorageKey
  pub w1 : World
  pub w2 : World
  pub w3 : World
  pub w4 : World
  pub claimed : Answers (deps.repository.claim id deps.lease_seconds) w (some claim) w1
  pub downloaded : Answers (deps.storage.get_object claim.storage_key) w1 content w2
  pub whole : length content ≡ claim.file_size
  pub scanned : Answers (deps.scan content) w2 clean_verdict w3
  pub copied : Copied deps.storage claim content copy w3 w4
  pub marked : Answers (deps.repository.mark_clean claim copy) w4 true w'

pdf-cases :
    (t : DocumentFileType) → ((t ≡ pdf) × (is_pdf t ≡ true)) ⊎ ((t ≢ pdf) × (is_pdf t ≡ false))
pdf-cases pdf = inl (refl, refl)
pdf-cases jpeg = inr ((λ e. cc), refl)
pdf-cases png = inr ((λ e. cc), refl)

module _ (deps : ScanDocumentDeps) where
  recover-clean :
      (c : ScanClaim) (e : Error) (w w' : World) → recover deps c e w ≡ (ok clean, w') → ⊥
  unfolding recover
  recover-clean c e w w' h = ground arith

  skips : (w w' : World) → treat_claim deps none w ≡ (ok clean, w') → ⊥
  unfolding treat_claim
  skips w w' h = cc

  copy-Copied :
      (c : ScanClaim) (content : Bytes) (key : Option StorageKey) (w w' : World)
      → store_sanitized_copy deps.storage c content w ≡ (ok key, w')
      → Copied deps.storage c content key w w'
  unfolding store_sanitized_copy
  copy-Copied c content key w w' h = ground arith

  marked-clean :
      (c : ScanClaim) (key : Option StorageKey) (w w' : World)
      → (deps.repository.mark_clean c key >>= λ done. pure (if done then clean else lost)) w
        ≡ (ok clean, w')
      → Answers (deps.repository.mark_clean c key) w true w'
  marked-clean c key w w' h = ground arith

  conclude-clean :
      (c : ScanClaim) (content : Bytes) (v : ScanVerdict) (w w' : World)
      → conclude deps c content v w ≡ (ok clean, w')
      → (v ≡ clean_verdict)
        × ((q : Option StorageKey × World) × (store_sanitized_copy deps.storage c content w
              ≡ (ok q.0, q.1))
            × Answers (deps.repository.mark_clean c q.0) q.1 true w')
  unfolding conclude
  conclude-clean c content (infected_verdict signature) w w' h = ground arith
  conclude-clean c content clean_verdict w w' h =
      let (q, e, r) = bind-ok (store_sanitized_copy deps.storage c content) _ w w' h in
      (refl, (q, e, marked-clean c q.0 q.1 w' r))

  -- What the sequence inside `try` did when it ends in CLEAN.
  treatment-clean :
      (id : ℕ) (c : ScanClaim) (w w1 w' : World)
      → deps.repository.claim id deps.lease_seconds w ≡ (ok (some c), w1)
      → treatment deps c w1 ≡ (ok clean, w')
      → CleanRun deps id w w'
  unfolding treatment
  treatment-clean id c w w1 w' claimed h =
      let (p, downloaded, r) = bind-ok (deps.storage.get_object c.storage_key) _ w1 w' h in
      let (whole, r2) =
        throw_if-ok (not (length p.0 == c.file_size)) (failure size_mismatch) _ p.1 w' r in
      let (v, scanned, r3) = bind-ok (deps.scan p.0) _ p.1 w' r2 in
      let (is, (q, stored, marked)) = conclude-clean c p.0 v.0 v.1 w' r3 in
      record {
        claim = c;
        content = p.0;
        copy = q.0;
        w1 = w1;
        w2 = p.1;
        w3 = v.1;
        w4 = q.1;
        claimed = claimed;
        downloaded = downloaded;
        whole = ground arith;
        scanned = rw (sym is) scanned;
        copied = copy-Copied c p.0 q.0 v.1 q.1 stored;
        marked = marked;
      }

  -- CLEAN is the outcome only of a whole treatment: the document was claimed, its content downloaded,
  -- with the size that was recorded, the antivirus found nothing, an image's metadata was removed and
  -- the copy stored, and the claim was still held when the result was recorded.
  pub clean_outcome :
      (id : ℕ) (w w' : World) → scan_document deps id w ≡ (ok clean, w') → CleanRun deps id w w'
  unfolding scan_document
  clean_outcome id w w' h =
      let (p, claimed, r) = bind-ok (deps.repository.claim id deps.lease_seconds) _ w w' h in
      treated p.0 p.1 claimed r
    where
      treated :
          (c : Option ScanClaim) (w1 : World)
          → deps.repository.claim id deps.lease_seconds w ≡ (ok c, w1)
          → treat_claim deps c w1 ≡ (ok clean, w')
          → CleanRun deps id w w'
      treated none w1 e r = absurd (skips w1 w' r)
      treated (some c) w1 e r = elim (catch-cases (treatment deps c) (recover deps c) w1) [
        | inl (q, t, f) ↦ treatment-clean id c w w1 w' e (t ∙ (sym f ∙ r))
        | inr (q, t, f) ↦ absurd (recover-clean c q.0 q.1 w' (sym f ∙ r))
      ]

  -- What becomes of the copy of a document recorded as failed: a PDF has none; an image's is deleted,
  -- or the log tells that it is left.
  pub CopyRemoved : ScanClaim → World → World → Type 0
  CopyRemoved c w w' =
      ((c.file_type ≡ pdf) × (w' ≡ w))
      ⊎ ((c.file_type ≢ pdf)
          × (Answers (deps.storage.delete_object (sanitized c.storage_key)) w tt w'
              ⊎ ((x : Error) × (w1 : World) × (deps.storage.delete_object (sanitized c.storage_key)
                      w
                    ≡ (err x, w1))
                  × (w' ≡ add_log (orphan_object (sanitized c.storage_key)) w1))))

  -- The world in which a document without attempts left ends: that of the record, where the claim was
  -- lost, and else the one that the removal of the copy leaves.
  pub EndsFailed : ScanClaim → Bool → World → World → Type 0
  EndsFailed c false w w' = w' ≡ w
  EndsFailed c true w w' = CopyRemoved c w w'

  -- The removal of a copy never throws.
  remove-ok :
      (c : ScanClaim) (w : World)
      → (w' : World) × CopyRemoved c w w' × (remove_sanitized_copy deps c w ≡ (ok tt, w'))
  unfolding remove_sanitized_copy CopyRemoved
  remove-ok c w = elim (pdf-cases c.file_type) [
    | inl (p, b) ↦ (w, inl (p, refl), rw b refl)
    | inr (p, b) ↦
        elim (catch-cases (deps.storage.delete_object (sanitized c.storage_key)) report w) [
          | inl (q, t, f) ↦ (q.1, inr (p, inl t), rw b f)
          | inr (q, t, f) ↦ (
            add_log (orphan_object (sanitized c.storage_key)) q.1,
            inr (p, inr (q.0, q.1, t, refl)),
            rw b f,
          )
        ]
  ]
    where
      report : Error → Action World (Unit {0})
      report e = modify (add_log (orphan_object (sanitized c.storage_key)))

  caught-recover :
      (id : ℕ) (c : ScanClaim) (e : Error) (w w1 w2 : World)
      → Answers (deps.repository.claim id deps.lease_seconds) w (some c) w1
      → treatment deps c w1 ≡ (err e, w2)
      → scan_document deps id w ≡ recover deps c e w2
  unfolding scan_document treat_claim
  caught-recover id c e w w1 w2 claimed thrown = rw (claimed, thrown) refl

  recover-retries :
      (c : ScanClaim) (e : Error) (released : Bool) (w w' : World)
      → c.attempts < deps.max_attempts
      → Answers (deps.repository.release c) w released w'
      → recover deps c e w ≡ (err e, w')
  unfolding recover
  recover-retries c e released w w' less rel = ground arith

  recover-gives_up :
      (c : ScanClaim) (e : Error) (done : Bool) (w w4 : World)
      → deps.max_attempts ≤ c.attempts
      → Answers (deps.repository.mark_failed c) w done w4
      → (w5 : World) × EndsFailed c done w4 w5 × (recover deps c e w ≡ (ok ScanOutcome.failed, w5))
  unfolding recover EndsFailed
  recover-gives_up c e true w w4 most mark =
      let (w5, gone, removed) = remove-ok c w4 in (w5, gone, ground (arith, removed))
  recover-gives_up c e false w w4 most mark = (w4, refl, ground arith)

  -- A treatment that throws, when the repository's own calls answer. With attempts left the claim is
  -- released and the error goes on to the queue, which retries the job; without, the document is
  -- recorded as failed, and the job ends without an error. It ends where the record left the world when
  -- the claim was lost or the document is a PDF; else the copy of the image is deleted, or the log
  -- tells that it is left.
  pub failure_outcome :
      (id : ℕ) (c : ScanClaim) (e : Error) (released done : Bool) (w w1 w2 w3 w4 : World)
      → Answers (deps.repository.claim id deps.lease_seconds) w (some c) w1
      → treatment deps c w1 ≡ (err e, w2)
      → Answers (deps.repository.release c) w2 released w3
      → Answers (deps.repository.mark_failed c) w2 done w4
      → ((c.attempts < deps.max_attempts) × (scan_document deps id w ≡ (err e, w3)))
        ⊎ ((deps.max_attempts ≤ c.attempts)
            × ((w5 : World) × EndsFailed c done w4 w5
                × (scan_document deps id w ≡ (ok ScanOutcome.failed, w5))))
  unfolding scan_document
  failure_outcome id c e released done w w1 w2 w3 w4 claimed thrown rel mark =
      elim (Bool-cases (leb deps.max_attempts c.attempts)) [
        | inl t ↦
            let (w5, ends, stop) = recover-gives_up c e done w2 w4 (ground (arith, t)) mark in
            inr (ground (arith, t), (w5, ends, runs ∙ stop))
        | inr t ↦
            inl
              (ground (arith, t), runs ∙ recover-retries c e released w2 w3 (ground (arith, t)) rel)
      ]
    where
      runs : scan_document deps id w ≡ recover deps c e w2
      runs = caught-recover id c e w w1 w2 claimed thrown
