-- ===== src/Tests/Treatments.antt =====
-- Treatments and executions of the OCR at concrete inputs.
use legaltech_colombia.Prelude.{
  select_where, ◌≤◌, count_where, arith, ◌<◌, ℕ, ◌≡◌, ◌⊎◌, refl, none, some, false, true,
}
use legaltech_colombia.Common.{job_not_enqueued, ok, err, failure, storage_error}
use legaltech_colombia.Database.{Db}
use legaltech_colombia.World.{on_db, World}
use legaltech_colombia.Scan
use legaltech_colombia.Scan.Repository.{ScanClaim, claim, claim_of, gave_up, finish, release}
use legaltech_colombia.Scan.Treatment.{ScanDocumentDeps, scan_document, ScanOutcome, treatment}
use legaltech_colombia.Scan.Fencing.{stale_claim_loses}
use legaltech_colombia.Scan.Results.{finish_atomic, claim_exclusive}
use legaltech_colombia.Scan.Recovery.{
  SweepOptions, sweep_untreated_documents, ids, recoverable, exhausted,
}
use legaltech_colombia.Scan.Sweeps.{swept, sweep_settles}
use legaltech_colombia.Scan.Outcome.{EndsFailed, CleanRun, clean_outcome, failure_outcome}
use legaltech_colombia.Tests.Data.{pending_document, pending_db, world, storage, deps}

abbrev claimed_db : Db
claimed_db = (claim 20 11 60 pending_db).1

claims : claim 20 11 60 pending_db ≡ (ok (some (claim_of 20 pending_document)), claimed_db)
unfolding claim
claims = refl

-- The lease of the claim has run out.
abbrev later : ℕ
later = 70000000

abbrev taken_db : Db
taken_db = (claim later 11 60 claimed_db).1

abbrev second_claim : ScanClaim
second_claim = record (claim_of 20 pending_document) { attempts = 2; token = later }

takes_over : claim later 11 60 claimed_db ≡ (ok (some second_claim), taken_db)
unfolding claim
takes_over = refl

distinct : Scan.Fencing.HasDistinctIds pending_db
distinct = (tt, tt)

claimed_distinct : Scan.Fencing.HasDistinctIds claimed_db
unfolding claim
claimed_distinct = (tt, tt)

stale_claim_loses_example :
    (finish 80000000 none (claim_of 20 pending_document) gave_up taken_db ≡ (ok false, taken_db))
    × (release (claim_of 20 pending_document) taken_db ≡ (ok false, taken_db))
stale_claim_loses_example =
    stale_claim_loses (claim_of 20 pending_document) second_claim later 60 80000000 none gave_up
      claimed_db taken_db claimed_distinct takes_over (omega arith)

claim_exclusive_example : claim 30 11 60 claimed_db ≡ (ok none, claimed_db)
claim_exclusive_example =
    claim_exclusive 20 30 60 11 (claim_of 20 pending_document) pending_db claimed_db distinct claims
      (omega arith)

finish_atomic_example :
    ((count_where (Scan.Repository.held (claim_of 20 pending_document)) claimed_db.documents ≡ 1)
      × ((finish 40 none (claim_of 20 pending_document) gave_up claimed_db ≡ (
        ok true,
        Scan.Results.recorded 40 none (claim_of 20 pending_document) gave_up claimed_db,
      ))
          ⊎ (finish 40 none (claim_of 20 pending_document) gave_up claimed_db
              ≡ (err (failure job_not_enqueued), claimed_db))))
    ⊎ ((count_where (Scan.Repository.held (claim_of 20 pending_document)) claimed_db.documents ≡ 0)
        × (finish 40 none (claim_of 20 pending_document) gave_up claimed_db
            ≡ (ok false, claimed_db)))
finish_atomic_example =
    finish_atomic 40 none (claim_of 20 pending_document) gave_up claimed_db claimed_distinct

abbrev treated_world : World
treated_world = (scan_document deps 11 world).1

treats : scan_document deps 11 world ≡ (ok ScanOutcome.clean, treated_world)
unfolding scan_document Scan.Repository.claim Scan.Repository.mark_clean
treats = refl

clean_outcome_example : CleanRun deps 11 world treated_world
clean_outcome_example = clean_outcome deps 11 world treated_world treats

-- A storage that is down.
abbrev down : ScanDocumentDeps
down = record deps {
  storage = record storage { get_object = λ key w. (err (failure storage_error), w) };
}

abbrev claimed_world : World
claimed_world = record world { db = claimed_db }

world_claims :
    on_db (claim 20 11 60) world ≡ (ok (some (claim_of 20 pending_document)), claimed_world)
unfolding claim
world_claims = refl

abbrev released_world : World
released_world = (on_db (release (claim_of 20 pending_document)) claimed_world).1

world_releases :
    on_db (release (claim_of 20 pending_document)) claimed_world ≡ (ok true, released_world)
unfolding claim release
world_releases = refl

abbrev failed_world : World
failed_world =
    (on_db (Scan.Repository.mark_failed 20 none (claim_of 20 pending_document)) claimed_world).1

world_fails :
    on_db (Scan.Repository.mark_failed 20 none (claim_of 20 pending_document)) claimed_world
    ≡ (ok true, failed_world)
unfolding claim Scan.Repository.mark_failed
world_fails = refl

throws :
    treatment down (claim_of 20 pending_document) claimed_world
    ≡ (err (failure storage_error), claimed_world)
unfolding treatment
throws = refl

failure_outcome_example :
    ((1 < 3) × (scan_document down 11 world ≡ (err (failure storage_error), released_world)))
    ⊎ ((3 ≤ 1)
        × ((w5 : World) × EndsFailed down (claim_of 20 pending_document) true failed_world w5
            × (scan_document down 11 world ≡ (ok ScanOutcome.failed, w5))))
failure_outcome_example =
    failure_outcome down 11 (claim_of 20 pending_document) (failure storage_error) true true world
      claimed_world claimed_world released_world failed_world world_claims throws world_releases
      world_fails

abbrev sweep_options : SweepOptions
sweep_options = record { lease_seconds = 60; max_attempts = 3 }

sweep_settles_example :
    (sweep_untreated_documents later true sweep_options claimed_db ≡ (
      ok (record {
        requeued = ids (select_where (recoverable later sweep_options) claimed_db.documents);
        failed = ids (select_where (exhausted later sweep_options) claimed_db.documents);
      }),
      swept later sweep_options claimed_db,
    ))
    × (count_where (exhausted later sweep_options) (swept later sweep_options claimed_db).documents
        ≡ 0)
    × (count_where
          (recoverable later sweep_options)
          (swept later sweep_options claimed_db).documents
        ≡ 0)
sweep_settles_example = sweep_settles later sweep_options claimed_db
