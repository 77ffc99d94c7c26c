-- ===== src/Auth/Sound.antt =====
-- The table of sessions: distinct ids and token hashes, an idle expiry within the absolute one, and a
-- reason for each revocation. `Progresses` relates two databases when a statement may lead from the
-- first to the second.
use legaltech_colombia.Prelude.{
  ℕ, ◌≤◌, Bool, true, false, List, [], ◌∷◌, ◌++◌, ◌≡◌, arith, All, All-append, update_where,
  update_where-All, is_some, any, ◌==◌, Absent, DistinctBy, update_where-DistinctBy,
  append-DistinctBy,
}
use legaltech_colombia.Auth.Tables.{SessionRecord, AuthDb}
use legaltech_colombia.Auth.Evolution.{
  Evolves, Extends, Extends-refl, Extends-trans, Extends-append, Extends-update_where,
}

abbrev pub id_of : SessionRecord → ℕ
id_of s = s.id

abbrev pub hash_of : SessionRecord → ℕ
hash_of s = s.token_hash

pub record IsSoundSession (s : SessionRecord) : Type 0 where
  pub idle_within : s.idle_expires_at ≤ s.absolute_expires_at
  pub reason_given : is_some s.revoked_reason ≡ is_some s.revoked_at

pub record IsSoundTable (xs : List SessionRecord) : Type 0 where
  pub rows : All IsSoundSession xs
  pub ids : DistinctBy id_of xs
  pub hashes : DistinctBy hash_of xs

pub record Progresses (before after : AuthDb) : Type 0 where
  pub keeps_sound : IsSoundTable before.sessions → IsSoundTable after.sessions
  pub extends : Extends before.sessions after.sessions

pub Progresses-refl : (db : AuthDb) → Progresses db db
Progresses-refl db = record { keeps_sound = λ h. h; extends = Extends-refl db.sessions }

pub Progresses-trans : (a b c : AuthDb) → Progresses a b → Progresses b c → Progresses a c
Progresses-trans a b c h k = record {
  keeps_sound = λ s. k.keeps_sound (h.keeps_sound s);
  extends = Extends-trans a.sessions b.sessions c.sessions h.extends k.extends;
}

-- A statement that leaves the sessions.
pub Progresses-same : (a b : AuthDb) → b.sessions ≡ a.sessions → Progresses a b
Progresses-same a b e = record {
  keeps_sound = λ h. rw e h;
  extends = rw e (Extends-refl a.sessions);
}

module _ (p : SessionRecord → Bool) (f : SessionRecord → SessionRecord)
    (same_id : (s : SessionRecord) → (f s).id ≡ s.id)
    (same_hash : (s : SessionRecord) → (f s).token_hash ≡ s.token_hash) where
  pub update-Progresses :
      (db : AuthDb)
      → ((s : SessionRecord) → p s ≡ true → Evolves s (f s))
      → ((s : SessionRecord) → IsSoundSession s → p s ≡ true → IsSoundSession (f s))
      → Progresses db (record db { sessions = update_where p f db.sessions })
  update-Progresses db evolves sound = record {
    keeps_sound = λ h. record {
      rows = update_where-All IsSoundSession p f sound db.sessions h.rows;
      ids = update_where-DistinctBy id_of p f same_id db.sessions h.ids;
      hashes = update_where-DistinctBy hash_of p f same_hash db.sessions h.hashes;
    };
    extends = Extends-update_where p f db.sessions evolves;
  }

any-Absent :
    (key : SessionRecord → ℕ) (k : ℕ) (xs : List SessionRecord)
    → any (λ s. key s == k) xs ≡ false
    → Absent key k xs
any-Absent key k [] h = tt
any-Absent key k (x ∷ xs) h = ground (arith, any-Absent key k xs)

pub insert-Progresses :
    (db : AuthDb) (s : SessionRecord)
    → IsSoundSession s
    → any (λ x. x.id == s.id) db.sessions ≡ false
    → any (λ x. x.token_hash == s.token_hash) db.sessions ≡ false
    → Progresses db (record db { sessions = db.sessions ++ s ∷ [] })
insert-Progresses db s sound new_id new_hash = record {
  keeps_sound = λ h. record {
    rows = All-append IsSoundSession db.sessions (s ∷ []) h.rows (sound, tt);
    ids = append-DistinctBy id_of db.sessions s h.ids (any-Absent id_of s.id db.sessions new_id);
    hashes =
        append-DistinctBy hash_of db.sessions s h.hashes
          (any-Absent hash_of s.token_hash db.sessions new_hash);
  };
  extends = Extends-append db.sessions (s ∷ []);
}
