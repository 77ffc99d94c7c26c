-- ===== src/Auth/Validity.antt =====
-- `loadValidSession`: which sessions it accepts, and what it writes.
use legaltech_colombia.Prelude.{
  subst, ==_iff, update_where-DistinctBy, ℕ, ◌+◌, ◌<◌, Bool, true, false, Option, none, some, List,
  [], ◌∷◌, ◌≡◌, ◌⊎◌, ◌≢◌, refl, sym, inl, inr, arith, All, find_where, find_where-All, update_where,
  update_where-All, Absent, DistinctBy, Bool-cases, Option-cases,
}
use legaltech_colombia.Common.{ok}
use legaltech_colombia.Auth.Tables.{SessionRecord, AuthDb}
use legaltech_colombia.Common.Writes.{Writes}
use legaltech_colombia.Auth.Evolution.{Evolves, Extends-update_where}
use legaltech_colombia.Auth.Sound.{id_of, hash_of, IsSoundSession, Progresses, Progresses-refl}
use legaltech_colombia.Auth.Repository.{is_session_id, has_token_hash, touched}
use legaltech_colombia.Auth.Session.{
  Security, is_refused, slid_idle_expires_at, session_rotation_grace_ms, load_valid_session,
}

-- A session that DATABASE_SPEC.md and the rotation of ADR-002 call valid.
pub record IsValid (now : ℕ) (s : SessionRecord) : Type 0 where
  pub unrevoked : s.revoked_at ≡ none
  pub in_grace :
      (s.rotated_at ≡ none)
      ⊎ ((t : ℕ) × (s.rotated_at ≡ some t) × (now < t + session_rotation_grace_ms))
  pub before_idle : now < s.idle_expires_at
  pub before_absolute : now < s.absolute_expires_at

accepted-IsValid : (now : ℕ) (s : SessionRecord) → is_refused now s ≡ false → IsValid now s
accepted-IsValid now s h = record {
  unrevoked = ground arith;
  in_grace = elim (Option-cases s.rotated_at) [
    | inl e ↦ inl e
    | inr (t, e) ↦ inr (t, e, ground arith)
  ];
  before_idle = ground arith;
  before_absolute = ground arith;
}

refused-invalid : (now : ℕ) (s : SessionRecord) → is_refused now s ≡ true → ¬ IsValid now s
refused-invalid now s h v =
    ground (arith, v.unrevoked, v.before_idle, v.before_absolute, v.in_grace)

-- The table after a valid session was used.
abbrev pub slid : ℕ → SessionRecord → AuthDb → AuthDb
slid now s db = record db {
  sessions =
      update_where (is_session_id s.id) (touched now (slid_idle_expires_at now s)) db.sessions;
}

abbrev pub session_of : Security → ℕ → AuthDb → Option SessionRecord
session_of security raw db = find_where (has_token_hash (security.sha256_hex raw)) db.sessions

-- A cookie opens exactly a session that is valid: not revoked, within the grace period if it was
-- rotated, and before both expiries. Then its row alone is written: seen now, with the idle expiry
-- slid. In every other case the answer is null and nothing changes.
pub load_valid_session_outcome :
    (security : Security) (now raw : ℕ) (db : AuthDb)
    → ((s : SessionRecord) × (session_of security raw db ≡ some s)
        × IsValid now s
        × (load_valid_session security now (some raw) db ≡ (ok (some s), slid now s db)))
      ⊎ (((session_of security raw db ≡ none)
            ⊎ ((s : SessionRecord) × (session_of security raw db ≡ some s) × ¬ IsValid now s))
          × (load_valid_session security now (some raw) db ≡ (ok none, db)))
unfolding load_valid_session
load_valid_session_outcome security now raw db = elim (Option-cases (session_of security raw db)) [
  | inl e ↦ inr (inl e, rw e refl)
  | inr (s, e) ↦ elim (Bool-cases (is_refused now s)) [
    | inl h ↦ inr (inr (s, e, refused-invalid now s h), rw (e, h) refl)
    | inr h ↦ inl (s, e, accepted-IsValid now s h, rw (e, h) refl)
  ]
]

-- In a table with distinct ids, the row that was found is the only one with its id.
abbrev SameExpiry : SessionRecord → SessionRecord → Type 0
SameExpiry s x = x.id ≡ s.id → x.absolute_expires_at ≡ s.absolute_expires_at

Absent-SameExpiry :
    (s : SessionRecord) (xs : List SessionRecord) → Absent id_of s.id xs → All (SameExpiry s) xs
Absent-SameExpiry s [] h = tt
Absent-SameExpiry s (x ∷ xs) h = (λ e. absurd (h.0 e), Absent-SameExpiry s xs h.1)

found-SameExpiry :
    (p : SessionRecord → Bool) (xs : List SessionRecord) (s : SessionRecord)
    → DistinctBy id_of xs
    → find_where p xs ≡ some s
    → All (SameExpiry s) xs
found-SameExpiry p [] s u e = cc
found-SameExpiry p (x ∷ xs) s u e = elim (Bool-cases (p x)) [
  | inl h ↦
      let same : x ≡ s = ground arith in
      subst (λ y. All (SameExpiry y) (x ∷ xs)) same (λ _. refl, Absent-SameExpiry x xs u.0)
  | inr h ↦
      let found : find_where p xs ≡ some s = ground arith in
      (
        λ k. absurd (find_where-All (λ y. y.id ≢ x.id) p xs {a = s} u.0 found (sym k)),
        found-SameExpiry p xs s u.1 found,
      )
]

rows-Both :
    (P Q : SessionRecord → Type 0) (xs : List SessionRecord)
    → All P xs
    → All Q xs
    → All (λ x. P x × Q x) xs
rows-Both P Q [] h k = tt
rows-Both P Q (x ∷ xs) h k = ((h.0, k.0), rows-Both P Q xs h.1 k.1)

rows-first :
    (P Q : SessionRecord → Type 0) (xs : List SessionRecord) → All (λ x. P x × Q x) xs → All P xs
rows-first P Q [] h = tt
rows-first P Q (x ∷ xs) h = (h.0.0, rows-first P Q xs h.1)

pub slid-Progresses :
    (security : Security) (now raw : ℕ) (db : AuthDb) (s : SessionRecord)
    → session_of security raw db ≡ some s
    → Progresses db (slid now s db)
slid-Progresses security now raw db s e = record {
  keeps_sound = λ h. record {
    rows = rows-first IsSoundSession (SameExpiry s) _ (
        update_where-All (λ x. IsSoundSession x × SameExpiry s x) (is_session_id s.id) f keep
          db.sessions
          (rows-Both IsSoundSession (SameExpiry s) db.sessions h.rows
            (found-SameExpiry _ db.sessions s h.ids e)));
    ids = update_where-DistinctBy id_of (is_session_id s.id) f (λ x. refl) db.sessions h.ids;
    hashes =
        update_where-DistinctBy hash_of (is_session_id s.id) f (λ x. refl) db.sessions h.hashes;
  };
  extends = Extends-update_where (is_session_id s.id) f db.sessions λ x k. touched-Evolves x;
}
  where
    f : SessionRecord → SessionRecord
    f = touched now (slid_idle_expires_at now s)

    keep :
        (x : SessionRecord)
        → IsSoundSession x × SameExpiry s x
        → is_session_id s.id x ≡ true
        → IsSoundSession (f x) × SameExpiry s (f x)
    keep x h k = (
      record {
        idle_within = ground (arith, h.1, ==_iff x.id s.id);
        reason_given = h.0.reason_given;
      },
      h.1,
    )

    touched-Evolves : (x : SessionRecord) → Evolves x (f x)
    touched-Evolves x = record {
      same_id = refl;
      same_user = refl;
      same_token = refl;
      same_absolute = refl;
      keeps_revoked = λ t h. (h, refl);
      keeps_rotated = λ t h. h;
    }

pub load_valid_session-Keeps :
    (security : Security) (now : ℕ) (raw : Option ℕ)
    → Writes Progresses (load_valid_session security now raw)
unfolding load_valid_session
load_valid_session-Keeps security now none db = Progresses-refl db
load_valid_session-Keeps security now (some raw) db =
    elim (load_valid_session_outcome security now raw db) [
      | inl (s, e, v, r) ↦ rw r (slid-Progresses security now raw db s e)
      | inr (h, r) ↦ rw r (Progresses-refl db)
    ]
