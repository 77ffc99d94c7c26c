-- ===== src/Notifications/Settled.antt =====
-- A run of the dispatch: every pending email is tried once, and only what was sent is marked.
use legaltech_colombia.Prelude.{
  map, not, ◌&&◌, select_where, length, update_where-DistinctBy, zero, ◌≤◌, ◌+◌, ℕ, suc, Bool,
  false, none, some, List, [], ◌∷◌, ◌≡◌, refl, ap, arith, DistinctBy,
}
use legaltech_colombia.Common.{Result}
use legaltech_colombia.Auth.Tables.{AuthDb, EmailOutboxRow}
use legaltech_colombia.Auth.Session.{Security}
use legaltech_colombia.Notifications.Composers.{
  EmailComposerOptions, EmailMessage, DispatchScope, create_email_composers,
}
use legaltech_colombia.Notifications.Dispatch.{
  is_listed_id, dispatch_pending_emails, tally, dispatch_loop, DispatchResult, EmailTransport,
  Outgoing, is_pending, dispatch_next,
}
use legaltech_colombia.Notifications.Iterations.{Iterated, next-Iterated}
use legaltech_colombia.Notifications.Runs.{waiting, Run, left_unsent}
use legaltech_colombia.Notifications.Pending.{
  first-IsNext, row_id, is_unsent, unsent, free, first-none, count-same, tried_less, sent_less,
  unsent_less,
}

module _ (transport : EmailTransport) (security : Security) (options : EmailComposerOptions) where
  module _ (scopes : ℕ → DispatchScope) where
    abbrev run : ℕ → ℕ → DispatchResult → Outgoing → DispatchResult × Outgoing
    run = dispatch_loop transport (create_email_composers security options) (λ _. free) scopes

    next : ℕ → Outgoing → Result Bool × Outgoing
    next k s = dispatch_next transport (create_email_composers security options) free (scopes k) s

    loop-go :
        (n k : ℕ) (r r' : DispatchResult) (s : Outgoing)
        → tally (next k s).0 r ≡ some r'
        → run (suc n) k r s ≡ run n (suc k) r' (next k s).1
    unfolding dispatch_loop next
    loop-go n k r r' s e = rw (e, dispatch_loop) refl

    loop-stop :
        (n k : ℕ) (r : DispatchResult) (s : Outgoing)
        → tally (next k s).0 r ≡ none
        → run (suc n) k r s ≡ (r, (next k s).1)
    unfolding dispatch_loop next
    loop-stop n k r s e = rw (e, dispatch_loop) refl

    abbrev Settles : ℕ → DispatchResult → Outgoing → DispatchResult × Outgoing → Type 0
    Settles k r s (r', s') =
        (r'.sent + r'.failed ≡ r.sent + r.failed + waiting s)
        × (unsent s'.db + r'.sent ≡ unsent s.db + r.sent)
        × ((es : List EmailOutboxRow) × (fs : List EmailOutboxRow) × Run transport security options
              scopes k s es fs s'
            × (r'.sent ≡ r.sent + length es)
            × (r'.failed ≡ r.failed + length fs))

    loop-Settles :
        (n k : ℕ) (r : DispatchResult) (s : Outgoing)
        → DistinctBy row_id s.db.email_outbox
        → waiting s ≤ n
        → Settles k r s (run n k r s)
    unfolding dispatch_loop next
    loop-Settles zero k r s distinct h =
        (omega arith, refl, ([], [], Run.over (omega arith), omega arith, omega arith))
    loop-Settles (suc n) k r s distinct h =
        elim (next-Iterated transport security options (scopes k) s) [
          | Iterated.idle none_left answered same ↦
              let empty = first-none (is_pending free s.attempted) s.db.email_outbox none_left in
              rw (loop-stop n k r s (ap (λ a. tally a r) answered), same)
                (omega (arith, empty), refl, ([], [], Run.over empty, omega arith, omega arith))
          | Iterated.delivered e found answered sent listed marked ↦
              let after = (next k s).1 in
              let r1 : DispatchResult = record r { sent = suc r.sent } in
              let fewer : suc (waiting after) ≡ waiting s =
                rw (listed, marked)
                  (sent_less s.attempted (scopes k).now s.db.email_outbox e distinct found) in
              let less : suc (unsent after.db) ≡ unsent s.db =
                rw marked
                  (unsent_less s.attempted (scopes k).now s.db.email_outbox e distinct found) in
              let still : DistinctBy row_id after.db.email_outbox =
                rw marked
                  (update_where-DistinctBy row_id _ _ (λ x. refl) s.db.email_outbox distinct) in
              let (tried, kept, (es, fs, runs, sents, faileds)) =
                loop-Settles n (suc k) r1 after still (omega (arith, fewer)) in
              rw (loop-go n k r r1 s (ap (λ a. tally a r) answered)) (
                omega (arith, tried, fewer),
                omega (arith, kept, less),
                (
                  e ∷ es,
                  fs,
                  Run.sends e (first-IsNext s.attempted s.db.email_outbox e found) sent listed
                      marked runs,
                  omega (arith, sents),
                  faileds,
                ),
              )
          | Iterated.left e x found answered failing listed same ↦
              let after = (next k s).1 in
              let r1 : DispatchResult = record r { failed = suc r.failed } in
              let fewer : suc (waiting after) ≡ waiting s =
                rw (listed, same) (tried_less s.attempted 0 s.db.email_outbox e distinct found) in
              let still : DistinctBy row_id after.db.email_outbox = rw same distinct in
              let level : unsent after.db ≡ unsent s.db = rw same refl in
              let (tried, kept, (es, fs, runs, sents, faileds)) =
                loop-Settles n (suc k) r1 after still (omega (arith, fewer)) in
              rw (loop-go n k r r1 s (ap (λ a. tally a r) answered)) (
                omega (arith, tried, fewer),
                omega (arith, kept, level),
                (
                  es,
                  e ∷ fs,
                  Run.fails e (first-IsNext s.attempted s.db.email_outbox e found) failing listed
                      same runs,
                  sents,
                  omega (arith, faileds),
                ),
              )
        ]

    -- A run whose limit covers the pending emails, with no other dispatcher, takes them one by one, each
    -- time the oldest that is pending and not yet tried, until none is left, whatever fails. An email
    -- is counted as sent when the transport took the message composed for it, and as failed when it has
    -- no composer, its composer throws or the transport refuses it. Sent and failed add up to the
    -- emails that were pending, and what is still unsent is what was, less exactly the emails delivered.
    pub dispatch_settles :
        (limit : ℕ) (db : AuthDb) (before : List EmailMessage)
        → DistinctBy row_id db.email_outbox
        → unsent db ≤ limit
        → let (result, after) =
            dispatch_pending_emails transport
              (create_email_composers security options)
              (λ _ _. false)
              scopes
              limit
              db
              before in
          (result.sent + result.failed ≡ unsent db)
          × (unsent after.db + result.sent ≡ unsent db)
          × ((es : List EmailOutboxRow) × (fs : List EmailOutboxRow) × Run transport security
                options scopes 0
                (record { db = db; delivered = before; attempted = [] })
                es
                fs
                after
              × (select_where is_unsent after.db.email_outbox
                  ≡ select_where
                      (λ x. is_unsent x && not (is_listed_id (map row_id es) x.id))
                      db.email_outbox)
              × (result.sent ≡ length es)
              × (result.failed ≡ length fs))
    unfolding dispatch_pending_emails
    dispatch_settles limit db before distinct h =
        let all = count-same is_unsent (is_pending free []) db.email_outbox (λ x. ground arith) in
        let settled =
          loop-Settles limit 0 (record { sent = 0; failed = 0 })
            (record { db = db; delivered = before; attempted = [] }) distinct
            (omega (arith, all)) in
        let (tried, kept, (es, fs, runs, sents, faileds)) = settled in
        (
          omega (arith, all, tried),
          omega (arith, kept),
          (
            es,
            fs,
            runs,
            left_unsent transport security options scopes runs,
            omega (arith, sents),
            omega (arith, faileds),
          ),
        )
