-- ===== src/Limiter/Buckets.antt =====
-- The limiter's state and operations.
use legaltech_colombia.Prelude.{
  ℕ, suc, ◌+◌, ◌-◌, ◌/◌, Bool, true, false, not, Option, none, some, List, [], ◌∷◌, ltb, leb, ◌==◌,
  if◌then◌else◌, length, select_where,
}

pub record RateLimitResult : Type 0 where
  pub allowed : Bool
  pub retry_after_seconds : ℕ

pub record Bucket : Type 0 where
  pub key : ℕ
  pub count : ℕ
  pub reset_at : ℕ

pub record FixedWindowRateLimiter : Type 0 where
  pub buckets : List Bucket
  pub max : ℕ
  pub window_ms : ℕ
  pub next_sweep_at : ℕ

abbrev pub limiter : ℕ → ℕ → FixedWindowRateLimiter
limiter max window_ms = record { buckets = []; max = max; window_ms = window_ms; next_sweep_at = 0 }

-- `Map.get`
abbrev pub get : ℕ → List Bucket → Option Bucket
get k [] = none
get k (b ∷ bs) = if b.key == k then some b else get k bs

-- `Map.set`: in place, or at the end
abbrev pub put : Bucket → List Bucket → List Bucket
put c [] = c ∷ []
put c (b ∷ bs) = if b.key == c.key then c ∷ bs else b ∷ put c bs

abbrev pub is_live : ℕ → Bucket → Bool
is_live now b = not (leb b.reset_at now)

abbrev pub sweep_expired : ℕ → FixedWindowRateLimiter → FixedWindowRateLimiter
sweep_expired now l = if ltb now l.next_sweep_at then l else record l {
  buckets = select_where (is_live now) l.buckets;
  next_sweep_at = now + l.window_ms;
}

abbrev pub fresh : ℕ → ℕ → FixedWindowRateLimiter → Bucket
fresh key now l = record { key = key; count = 1; reset_at = now + l.window_ms }

abbrev pub with_bucket : Bucket → FixedWindowRateLimiter → FixedWindowRateLimiter
with_bucket b l = record l { buckets = put b l.buckets }

abbrev pub allowed_result : RateLimitResult
allowed_result = record { allowed = true; retry_after_seconds = 0 }

abbrev pub refused_result : ℕ → Bucket → RateLimitResult
refused_result now b = record {
  allowed = false;
  retry_after_seconds = (b.reset_at - now + 999) / 1000;
}

-- The call on the bucket that the key has, if any.
abbrev pub consume_bucket :
    ℕ → ℕ → FixedWindowRateLimiter → Option Bucket → RateLimitResult × FixedWindowRateLimiter
consume_bucket key now l none = (allowed_result, with_bucket (fresh key now l) l)
consume_bucket key now l (some b) =
    if leb b.reset_at now
    then (allowed_result, with_bucket (fresh key now l) l)
    else if ltb b.count l.max
    then (allowed_result, with_bucket (record b { count = suc b.count }) l)
    else (refused_result now b, l)

abbrev pub consume_swept : ℕ → ℕ → FixedWindowRateLimiter → RateLimitResult × FixedWindowRateLimiter
consume_swept key now l = consume_bucket key now l (get key l.buckets)

unfoldable pub consume : ℕ → ℕ → FixedWindowRateLimiter → RateLimitResult × FixedWindowRateLimiter
consume key now l = consume_swept key now (sweep_expired now l)

abbrev pub size : FixedWindowRateLimiter → ℕ
size l = length l.buckets

abbrev pub reset : FixedWindowRateLimiter → FixedWindowRateLimiter
reset l = record l { buckets = [] }
