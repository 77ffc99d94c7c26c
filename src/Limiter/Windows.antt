-- ===== src/Limiter/Windows.antt =====
-- Runs of the limiter: how many calls a window allows, and that dropping expired buckets changes no
-- answer.
use legaltech_colombia.Prelude.{
  ap, ◌∙◌, subst, ℕ, suc, ◌+◌, ◌≤◌, max, Bool, true, false, Option, none, some, List, [], ◌∷◌, ◌≡◌,
  refl, inl, inr, arith, ltb, leb, ◌==◌, if◌then◌else◌, Bool-cases, DistinctBy,
}
use legaltech_colombia.Limiter.Buckets.{
  limiter, allowed_result, refused_result, Bucket, FixedWindowRateLimiter, RateLimitResult, get,
  sweep_expired, fresh, with_bucket, consume_bucket, consume_swept, consume,
}
use legaltech_colombia.Limiter.Entries.{
  live, get-put, key_of, get-sweep, put-DistinctBy, sweep-DistinctBy,
}

-- A call: its key and its instant.
pub record Call : Type 0 where
  pub key : ℕ
  pub now : ℕ

-- Instants do not go back.
abbrev pub InOrder : ℕ → List Call → Type 0
InOrder t [] = Unit {0}
InOrder t (c ∷ cs) = (t ≤ c.now) × InOrder c.now cs

module _ (step : ℕ → ℕ → FixedWindowRateLimiter → RateLimitResult × FixedWindowRateLimiter) where
  unfoldable pub answers : List Call → FixedWindowRateLimiter → List RateLimitResult
  answers [] l = []
  answers (c ∷ cs) l = let (r, l') = step c.key c.now l in r ∷ answers cs l'

-- Two limiters that answer alike from an instant on.
pub record Agree (t : ℕ) (l m : FixedWindowRateLimiter) : Type 0 where
  pub same_max : l.max ≡ m.max
  pub same_window : l.window_ms ≡ m.window_ms
  pub distinct : DistinctBy key_of l.buckets
  pub same_live : (k : ℕ) → live t (get k l.buckets) ≡ live t (get k m.buckets)

pub live-later :
    (t now : ℕ) (o p : Option Bucket) → t ≤ now → live t o ≡ live t p → live now o ≡ live now p
live-later t now none none h e = refl
live-later t now none (some b) h e = ground arith
live-later t now (some a) none h e = ground arith
live-later t now (some a) (some b) h e = ground arith

live_twice : (now : ℕ) (o : Option Bucket) → live now (live now o) ≡ live now o
live_twice now none = refl
live_twice now (some b) = ground arith

swept-Agree :
    (t now : ℕ) (l m : FixedWindowRateLimiter)
    → t ≤ now
    → Agree t l m
    → Agree now (sweep_expired now l) m
swept-Agree t now l m h a = elim (Bool-cases (ltb now l.next_sweep_at)) [
  | inl e ↦ rw e (record {
    same_max = a.same_max;
    same_window = a.same_window;
    distinct = a.distinct;
    same_live = λ k. live-later t now (get k l.buckets) (get k m.buckets) h (a.same_live k);
  })
  | inr e ↦ rw e (record {
    same_max = a.same_max;
    same_window = a.same_window;
    distinct = sweep-DistinctBy now l.buckets a.distinct;
    same_live = λ k.
        let later = live-later t now (get k l.buckets) (get k m.buckets) h (a.same_live k) in
        let swept = get-sweep k now l.buckets a.distinct in
        rw swept (live_twice now (get k l.buckets) ∙ later);
  })
]

put-Agree :
    (now : ℕ) (l m : FixedWindowRateLimiter) (b : Bucket)
    → Agree now l m
    → Agree now (with_bucket b l) (with_bucket b m)
put-Agree now l m b a = record {
  same_max = a.same_max;
  same_window = a.same_window;
  distinct = put-DistinctBy b l.buckets a.distinct;
  same_live = λ k.
      let same = a.same_live k in
      rw (get-put k b l.buckets, get-put k b m.buckets) (branch (b.key == k) k same);
}
  where
    branch :
        (c : Bool) (k : ℕ)
        → live now (get k l.buckets) ≡ live now (get k m.buckets)
        → live now (if c then some b else get k l.buckets)
          ≡ live now (if c then some b else get k m.buckets)
    branch true k e = refl
    branch false k e = e

-- What a call does, by the bucket that counts.
consume_live :
    ℕ → ℕ → FixedWindowRateLimiter → Option Bucket → RateLimitResult × FixedWindowRateLimiter
consume_live key now l none = (allowed_result, with_bucket (fresh key now l) l)
consume_live key now l (some b) =
    if ltb b.count l.max
    then (allowed_result, with_bucket (record b { count = suc b.count }) l)
    else (refused_result now b, l)

consume_bucket-live :
    (key now : ℕ) (l : FixedWindowRateLimiter) (o : Option Bucket)
    → consume_bucket key now l o ≡ consume_live key now l (live now o)
unfolding consume_live
consume_bucket-live key now l none = refl
consume_bucket-live key now l (some b) = elim (Bool-cases (leb b.reset_at now)) [
  | inl e ↦ rw e refl
  | inr e ↦ rw e refl
]

opened : ℕ → ℕ → Bucket
opened k r = record { key = k; count = 1; reset_at = r }

live-Agree :
    (key now : ℕ) (l m : FixedWindowRateLimiter) (o : Option Bucket)
    → Agree now l m
    → ((consume_live key now l o).0 ≡ (consume_live key now m o).0)
      × Agree now (consume_live key now l o).1 (consume_live key now m o).1
unfolding consume_live opened
live-Agree key now l m none a = (
  refl,
  subst (λ b. Agree now (with_bucket (fresh key now l) l) (with_bucket b m))
      (ap (λ w. opened key (now + w)) a.same_window) (put-Agree now l m (fresh key now l) a),
)
live-Agree key now l m (some b) a =
    let same = ap (ltb b.count) a.same_max in
    elim (Bool-cases (ltb b.count m.max)) [
      | inl e ↦
          let left = same ∙ e in
          rw (left, e) (refl, put-Agree now l m (record b { count = suc b.count }) a)
      | inr e ↦ let left = same ∙ e in rw (left, e) (refl, a)
    ]

consume-Agree :
    (key t now : ℕ) (l m : FixedWindowRateLimiter)
    → t ≤ now
    → Agree t l m
    → ((consume key now l).0 ≡ (consume_swept key now m).0)
      × Agree now (consume key now l).1 (consume_swept key now m).1
unfolding consume
consume-Agree key t now l m h a =
    let swept = sweep_expired now l in
    let b = swept-Agree t now l m h a in
    rw
      (
        consume_bucket-live key now swept (get key swept.buckets),
        consume_bucket-live key now m (get key m.buckets),
        b.same_live key,
      )
      (live-Agree key now swept m (live now (get key m.buckets)) b)

pub answers-Agree :
    (t : ℕ) (cs : List Call) (l m : FixedWindowRateLimiter)
    → InOrder t cs
    → Agree t l m
    → answers consume cs l ≡ answers consume_swept cs m
unfolding answers
answers-Agree t [] l m h a = refl
answers-Agree t (c ∷ cs) l m h a =
    let (same, b) = consume-Agree c.key t c.now l m h.0 a in
    rw
      (same, answers-Agree c.now cs (consume c.key c.now l).1 (consume_swept c.key c.now m).1 h.1 b)
      refl

-- Dropping expired buckets changes no answer: from a new limiter, with instants that do not go back,
-- the calls are answered as by a limiter that never sweeps.
pub sweeping_unseen :
    (max window_ms t : ℕ) (cs : List Call)
    → InOrder t cs
    → answers consume cs (limiter max window_ms) ≡ answers consume_swept cs (limiter max window_ms)
sweeping_unseen max window_ms t cs h =
    answers-Agree t cs (limiter max window_ms) (limiter max window_ms) h
      (record { same_max = refl; same_window = refl; distinct = tt; same_live = λ k. refl })
