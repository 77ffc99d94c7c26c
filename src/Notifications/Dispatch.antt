-- ===== src/Notifications/Dispatch.antt =====
-- outbox.repository.ts (`PrismaOutboxRepository`) and dispatch.ts (`dispatchPendingEmails`). The
-- transport is a parameter: a call on what was delivered, which a rolled back transaction keeps.
use legaltech_colombia.Prelude.{
  zero, suc, ℕ, Bool, true, false, not, Option, none, some, List, [], ◌∷◌, ◌==◌, ◌&&◌, ◌||◌, ltb,
  leb, is_none, if◌then◌else◌, any, update_where,
}
use legaltech_colombia.Common.{
  Action, Result, ok, err, pure, throw, gets, modify, ◌>>=◌, ◌>>◌, failure, no_composer,
}
use legaltech_colombia.Auth.Tables.{AuthDb, EmailOutboxRow, EmailOutboxKind}
use legaltech_colombia.Notifications.Composers.{
  OutboxEntry, EmailMessage, DispatchScope, EmailComposer,
}

abbrev pub EmailTransport : Type 0
EmailTransport = EmailMessage → Action (List EmailMessage) (Unit {0})

-- The database, what the transport delivered, and `attempted` of one run.
pub record Outgoing : Type 0 where
  pub db : AuthDb
  pub delivered : List EmailMessage
  pub attempted : List ℕ

abbrev in_outgoing : {A : Type 0} → Outgoing → Result A × AuthDb → Result A × Outgoing
in_outgoing s (r, db) = (r, record s { db = db })

abbrev pub on_auth_db : {A : Type 0} → Action AuthDb A → Action Outgoing A
on_auth_db m s = in_outgoing s (m s.db)

abbrev with_delivered : {A : Type 0} → Outgoing → Result A × List EmailMessage → Result A × Outgoing
with_delivered s (r, ms) = (r, record s { delivered = ms })

abbrev pub send : EmailTransport → EmailMessage → Action Outgoing (Unit {0})
send transport m s = with_delivered s (transport m s.delivered)

-- A transaction that throws is rolled back; deliveries and `attempted` are not.
abbrev rolled_back_db : {A : Type 0} → AuthDb → Result A × Outgoing → Result A × Outgoing
rolled_back_db db (ok a, s) = (ok a, s)
rolled_back_db db (err e, s) = (err e, record s { db = db })

abbrev pub db_transaction : {A : Type 0} → Action Outgoing A → Action Outgoing A
db_transaction m s = rolled_back_db s.db (m s)

abbrev pub is_listed_id : List ℕ → ℕ → Bool
is_listed_id ids id = any (λ k. k == id) ids

-- `sent_at IS NULL AND NOT (id = ANY(exclude))`, and not locked by another dispatcher
abbrev pub is_pending : (ℕ → Bool) → List ℕ → EmailOutboxRow → Bool
is_pending locked exclude e =
    is_none e.sent_at && not (is_listed_id exclude e.id) && not (locked e.id)

-- `ORDER BY created_at, id`
abbrev pub queued_before : EmailOutboxRow → EmailOutboxRow → Bool
queued_before a b = ltb a.created_at b.created_at || a.created_at == b.created_at && leb a.id b.id

abbrev pub earlier : Option EmailOutboxRow → Option EmailOutboxRow → Option EmailOutboxRow
earlier none b = b
earlier (some a) none = some a
earlier (some a) (some b) = if queued_before a b then some a else some b

-- `ORDER BY … LIMIT 1`
abbrev pub first_where : (EmailOutboxRow → Bool) → List EmailOutboxRow → Option EmailOutboxRow
first_where p [] = none
first_where p (e ∷ es) = earlier (if p e then some e else none) (first_where p es)

abbrev pub entry_of : EmailOutboxRow → OutboxEntry
entry_of e = record { id = e.id; kind = e.kind; user_id = e.user_id; created_at = e.created_at }

abbrev pub mark_sent : ℕ → ℕ → AuthDb → AuthDb
mark_sent now id db = record db {
  email_outbox =
      update_where (λ e. e.id == id) (λ e. record e { sent_at = some now }) db.email_outbox;
}

abbrev pub attempt : ℕ → Outgoing → Outgoing
attempt id s = record s { attempted = id ∷ s.attempted }

pub record DispatchResult : Type 0 where
  pub sent : ℕ
  pub failed : ℕ

module _ (transport : EmailTransport) (composers : EmailOutboxKind → Option EmailComposer) where
  abbrev pub compose_and_send :
      DispatchScope → OutboxEntry → Option EmailComposer → Action Outgoing (Unit {0})
  compose_and_send scope entry none = throw (failure no_composer)
  compose_and_send scope entry (some composer) = do
    message ← on_auth_db (composer entry scope)
    send transport message

  -- The handler that the dispatch gives.
  abbrev pub handle : DispatchScope → OutboxEntry → Action Outgoing (Unit {0})
  handle scope entry =
      modify (attempt entry.id) >> compose_and_send scope entry (composers entry.kind)

  abbrev pub handle_row : DispatchScope → Option EmailOutboxRow → Action Outgoing Bool
  handle_row scope none = pure false
  handle_row scope (some e) = do
    handle scope (entry_of e)
    modify (λ s. record s { db = mark_sent scope.now e.id s.db })
    pure true

  unfoldable pub dispatch_next : (ℕ → Bool) → DispatchScope → Action Outgoing Bool
  dispatch_next locked scope = db_transaction do
    e ← gets (λ s. first_where (is_pending locked s.attempted) s.db.email_outbox)
    handle_row scope e

-- Whether the loop goes on, and what it counts.
abbrev pub tally : Result Bool → DispatchResult → Option DispatchResult
tally (ok true) r = some (record r { sent = suc r.sent })
tally (ok false) r = none
tally (err e) r = some (record r { failed = suc r.failed })

module _ (transport : EmailTransport) (composers : EmailOutboxKind → Option EmailComposer)
    (locked : ℕ → ℕ → Bool) (scopes : ℕ → DispatchScope) where
  -- The iterations that are left under the limit, and the number of this one.
  unfoldable pub dispatch_loop : ℕ → ℕ → DispatchResult → Outgoing → DispatchResult × Outgoing
  dispatch_loop zero k r s = (r, s)
  dispatch_loop (suc n) k r s =
      let (answer, after) = dispatch_next transport composers (locked k) (scopes k) s in
      elim (tally answer r) [ none ↦ (r, after) | some r' ↦ dispatch_loop n (suc k) r' after ]

  unfoldable pub dispatch_pending_emails :
      ℕ → AuthDb → List EmailMessage → DispatchResult × Outgoing
  dispatch_pending_emails limit db delivered =
      dispatch_loop limit 0 (record { sent = 0; failed = 0 })
        (record { db = db; delivered = delivered; attempted = [] })
