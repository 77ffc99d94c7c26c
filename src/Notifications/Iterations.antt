-- ===== src/Notifications/Iterations.antt =====
-- One iteration of the dispatch: which email it takes, and whether its message was delivered.
use legaltech_colombia.Prelude.{
  Bool, true, false, Option, none, some, List, ◌∷◌, ◌≡◌, refl, sym, ◌∙◌, ap, arith, inl, inr,
  Option-cases,
}
use legaltech_colombia.Common.{no_composer, failure, Error, Error, Result, ok, err}
use legaltech_colombia.Auth.Tables.{
  email_verification, password_reset, password_reset_completed, AuthDb, EmailOutboxRow,
  EmailOutboxKind,
}
use legaltech_colombia.Auth.Session.{Security}
use legaltech_colombia.Notifications.Composers.{
  OutboxEntry, OutboxEntry, EmailComposerOptions, EmailComposer, EmailMessage, DispatchScope,
  create_email_composers,
}
use legaltech_colombia.Notifications.Dispatch.{
  entry_of, EmailTransport, Outgoing, is_pending, first_where, mark_sent, dispatch_next,
}
use legaltech_colombia.Notifications.Pending.{free}

some-same : {A : Type 0} {a b : A} → some a ≡ some b → a ≡ b
some-same e = cc

module _ (transport : EmailTransport) (security : Security) (options : EmailComposerOptions) where
  -- The message composed for an email is the one that the transport took.
  abbrev pub Delivers : DispatchScope → EmailOutboxRow → Outgoing → Outgoing → Type 0
  Delivers scope e s after =
      (c : EmailComposer) × (m : EmailMessage) × (written : AuthDb) × (create_email_composers
          security options e.kind
        ≡ some c)
      × (c (entry_of e) scope s.db ≡ (ok m, written))
      × (transport m s.delivered ≡ (ok tt, after.delivered))
      × (after.db ≡ mark_sent scope.now e.id written)

  -- The email has no composer, its composer throws, or the transport refuses its message.
  pub data Fails (scope : DispatchScope) (e : EmailOutboxRow) (s after : Outgoing) : Type 0 where
    uncomposed :
        create_email_composers security options e.kind ≡ none
        → after.delivered ≡ s.delivered
        → Fails scope e s after
    unreadable :
        (c : EmailComposer) (x : Error) (written : AuthDb)
        → create_email_composers security options e.kind ≡ some c
        → c (entry_of e) scope s.db ≡ (err x, written)
        → after.delivered ≡ s.delivered
        → Fails scope e s after
    refused :
        (c : EmailComposer) (m : EmailMessage) (x : Error) (written : AuthDb)
        → create_email_composers security options e.kind ≡ some c
        → c (entry_of e) scope s.db ≡ (ok m, written)
        → transport m s.delivered ≡ (err x, after.delivered)
        → Fails scope e s after

  -- What one iteration leaves: nothing pending, the email sent and marked, or the email tried.
  pub data Iterated (scope : DispatchScope) (s : Outgoing) (answer : Result Bool) (after : Outgoing)
      : Type 0 where
    idle :
        first_where (is_pending free s.attempted) s.db.email_outbox ≡ none
        → answer ≡ ok false
        → after ≡ s
        → Iterated scope s answer after
    delivered :
        (e : EmailOutboxRow)
        → first_where (is_pending free s.attempted) s.db.email_outbox ≡ some e
        → answer ≡ ok true
        → Delivers scope e s after
        → after.attempted ≡ e.id ∷ s.attempted
        → after.db.email_outbox ≡ (mark_sent scope.now e.id s.db).email_outbox
        → Iterated scope s answer after
    left :
        (e : EmailOutboxRow) (x : Error)
        → first_where (is_pending free s.attempted) s.db.email_outbox ≡ some e
        → answer ≡ err x
        → Fails scope e s after
        → after.attempted ≡ e.id ∷ s.attempted
        → after.db ≡ s.db
        → Iterated scope s answer after

  -- What the composers write.
  composed-outbox :
      (scope : DispatchScope) (entry : OutboxEntry) (k : EmailOutboxKind) (db : AuthDb)
      {c : EmailComposer}
      → create_email_composers security options k ≡ some c
      → (c entry scope db).1.email_outbox ≡ db.email_outbox
  composed-outbox scope entry email_verification db {c} h = rw (sym (some-same h)) (ground arith)
  composed-outbox scope entry password_reset db {c} h = rw (sym (some-same h)) (ground arith)
  composed-outbox scope entry password_reset_completed db {c} h =
      rw (sym (some-same h)) (ground arith)

  module _ (scope : DispatchScope) (s : Outgoing) (e : EmailOutboxRow)
      (h : first_where (is_pending free s.attempted) s.db.email_outbox ≡ some e) where
    abbrev Next : Type 0
    Next =
        Iterated scope s
          (dispatch_next transport (create_email_composers security options) free scope s).0
          (dispatch_next transport (create_email_composers security options) free scope s).1

    sending :
        (c : EmailComposer) (m : EmailMessage) (db : AuthDb)
        (q : Result (Unit {0}) × List EmailMessage)
        → create_email_composers security options e.kind ≡ some c
        → c (entry_of e) scope s.db ≡ (ok m, db)
        → transport m s.delivered ≡ q
        → Next
    unfolding dispatch_next
    sending c m db (ok tt, ds) k f g =
        let kept = composed-outbox scope (entry_of e) e.kind s.db {c = c} k in
        let same : db.email_outbox ≡ s.db.email_outbox =
          sym (ap (λ p. p.1.email_outbox) f) ∙ kept in
        rw (h, k, f, g) (Iterated.delivered e h refl (c, m, db, k, f, g, refl) refl (rw same refl))
    sending c m db (err x, ds) k f g =
        rw (h, k, f, g) (Iterated.left e x h refl (Fails.refused c m x db k f g) refl refl)

    composing :
        (c : EmailComposer) (q : Result EmailMessage × AuthDb)
        → create_email_composers security options e.kind ≡ some c
        → c (entry_of e) scope s.db ≡ q
        → Next
    unfolding dispatch_next
    composing c (ok m, db) k f = sending c m db (transport m s.delivered) k f refl
    composing c (err x, db) k f =
        rw (h, k, f) (Iterated.left e x h refl (Fails.unreadable c x db k f refl) refl refl)

    choosing :
        (o : Option EmailComposer) → create_email_composers security options e.kind ≡ o → Next
    unfolding dispatch_next
    choosing none k =
        rw (h, k) (Iterated.left e (failure no_composer) h refl (Fails.uncomposed k refl) refl refl)
    choosing (some c) k = composing c (c (entry_of e) scope s.db) k refl

  pub next-Iterated :
      (scope : DispatchScope) (s : Outgoing)
      → Iterated scope s
          (dispatch_next transport (create_email_composers security options) free scope s).0
          (dispatch_next transport (create_email_composers security options) free scope s).1
  unfolding dispatch_next
  next-Iterated scope s =
      elim (Option-cases (first_where (is_pending free s.attempted) s.db.email_outbox)) [
        | inl h ↦ rw h (Iterated.idle h refl refl)
        | inr (e, h) ↦ choosing scope s e h (create_email_composers security options e.kind) refl
      ]
