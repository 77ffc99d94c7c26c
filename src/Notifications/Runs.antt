-- ===== src/Notifications/Runs.antt =====
-- A run of the dispatch, email by email.
use legaltech_colombia.Prelude.{
  ==_iff, ◌==◌, map, update_where, not, ◌&&◌, select_where, ℕ, suc, Bool, some, List, [], ◌∷◌, ◌≡◌,
  refl, ◌∙◌, ap, arith, count_where,
}
use legaltech_colombia.Auth.Tables.{AuthDb, EmailOutboxRow}
use legaltech_colombia.Auth.Session.{Security}
use legaltech_colombia.Notifications.Composers.{EmailComposerOptions, DispatchScope}
use legaltech_colombia.Notifications.Dispatch.{
  is_listed_id, EmailTransport, Outgoing, is_pending, mark_sent,
}
use legaltech_colombia.Notifications.Iterations.{Delivers, Fails}
use legaltech_colombia.Notifications.Pending.{IsNext, row_id, is_unsent, free}

select-same :
    (p q : EmailOutboxRow → Bool) (xs : List EmailOutboxRow)
    → ((x : EmailOutboxRow) → p x ≡ q x)
    → select_where p xs ≡ select_where q xs
select-same p q [] h = refl
select-same p q (x ∷ xs) h = ground (arith, h x, select-same p q xs h)

-- Marking a row takes it from those that are unsent.
select-marked :
    (ids : List ℕ) (k now : ℕ) (xs : List EmailOutboxRow)
    → select_where
        (λ x. is_unsent x && not (is_listed_id ids x.id))
        (update_where (λ e. e.id == k) (λ e. record e { sent_at = some now }) xs)
      ≡ select_where (λ x. is_unsent x && not (is_listed_id (k ∷ ids) x.id)) xs
select-marked ids k now [] = refl
select-marked ids k now (x ∷ xs) =
    ground (arith, ==_iff x.id k, ==_iff k x.id, select-marked ids k now xs)

-- The emails that a run has still to try.
abbrev pub waiting : Outgoing → ℕ
waiting s = count_where (is_pending free s.attempted) s.db.email_outbox

module _ (transport : EmailTransport) (security : Security) (options : EmailComposerOptions) where
  module _ (scopes : ℕ → DispatchScope) where
    -- A run, email by email, from its iteration `k`: those delivered, those that failed, and where it
    -- ends, with no pending email that it did not try.
    pub data Run
        : ℕ → Outgoing → List EmailOutboxRow → List EmailOutboxRow → Outgoing → Type 0 where
      over : {k : ℕ} {s : Outgoing} → waiting s ≡ 0 → Run k s [] [] s
      sends :
          {k : ℕ} {s after s' : Outgoing} {es fs : List EmailOutboxRow} (e : EmailOutboxRow)
          → IsNext s.attempted s.db.email_outbox e
          → Delivers transport security options (scopes k) e s after
          → after.attempted ≡ e.id ∷ s.attempted
          → after.db.email_outbox ≡ (mark_sent (scopes k).now e.id s.db).email_outbox
          → Run (suc k) after es fs s'
          → Run k s (e ∷ es) fs s'
      fails :
          {k : ℕ} {s after s' : Outgoing} {es fs : List EmailOutboxRow} (e : EmailOutboxRow)
          → IsNext s.attempted s.db.email_outbox e
          → Fails transport security options (scopes k) e s after
          → after.attempted ≡ e.id ∷ s.attempted
          → after.db ≡ s.db
          → Run (suc k) after es fs s'
          → Run k s es (e ∷ fs) s'

    -- What a run leaves unsent: what was unsent, less the emails delivered.
    pub left_unsent :
        {k : ℕ} {s s' : Outgoing} {es fs : List EmailOutboxRow}
        → Run k s es fs s'
        → select_where is_unsent s'.db.email_outbox
          ≡ select_where
              (λ x. is_unsent x && not (is_listed_id (map row_id es) x.id))
              s.db.email_outbox
    left_unsent {s = s} (over none_left) =
        select-same is_unsent _ s.db.email_outbox (λ x. ground arith)
    left_unsent {k} {s = s} {s' = s'}
          (sends {after = after} {es = es} e found sent listed marked rest) =
        left_unsent rest
        ∙ ap (select_where (λ x. is_unsent x && not (is_listed_id (map row_id es) x.id))) marked
        ∙ select-marked (map row_id es) e.id (scopes k).now s.db.email_outbox
    left_unsent {s = s} (fails {es = es} e found failing listed same rest) =
        left_unsent rest
        ∙ ap
            (λ (d : AuthDb).
              select_where (λ x. is_unsent x && not (is_listed_id (map row_id es) x.id))
                d.email_outbox)
            same
