-- ===== src/Limiter/Bound.antt =====
-- At most `max` calls of a key pass between the opening of a window and its end.
use legaltech_colombia.Prelude.{
  subst, ℕ, suc, ◌+◌, ◌-◌, ◌≤◌, ◌<◌, max, false, none, some, List, [], ◌∷◌, ◌≡◌, refl, sym, ◌∙◌,
  arith, ltb, ◌==◌, ◌&&◌, ==_iff, if◌then◌else◌, Bool-cases, inl, inr, All, DistinctBy,
  Option-cases,
}
use legaltech_colombia.Limiter.Buckets.{
  allowed_result, Bucket, FixedWindowRateLimiter, RateLimitResult, get, fresh, with_bucket,
  consume_swept, consume,
}
use legaltech_colombia.Limiter.Entries.{live, get-put, key_of}
use legaltech_colombia.Limiter.Windows.{Call, InOrder, answers, live-later, answers-Agree}

-- How many calls of a key were let through.
pub granted : ℕ → List Call → List RateLimitResult → ℕ
granted key [] rs = 0
granted key (c ∷ cs) [] = 0
granted key (c ∷ cs) (r ∷ rs) =
    let rest = granted key cs rs in if c.key == key && r.allowed then suc rest else rest

abbrev pub Before : ℕ → List Call → Type 0
Before t = All λ c. c.now < t

-- What one call leaves to a key.
abbrev step_of : Call → FixedWindowRateLimiter → FixedWindowRateLimiter
step_of c m = (consume_swept c.key c.now m).1

same-max : (c : Call) (m : FixedWindowRateLimiter) → (step_of c m).max ≡ m.max
same-max c m = ground arith

same-window : (c : Call) (m : FixedWindowRateLimiter) → (step_of c m).window_ms ≡ m.window_ms
same-window c m = ground arith

get-key : (k : ℕ) (bs : List Bucket) {b : Bucket} → get k bs ≡ some b → b.key ≡ k
get-key k [] e = cc
get-key k (x ∷ xs) {b} e = ground (arith, get-key k xs {b = b})

-- A call of another key leaves the bucket.
others-get :
    (key : ℕ) (c : Call) (m : FixedWindowRateLimiter)
    → (c.key == key) ≡ false
    → get key (step_of c m).buckets ≡ get key m.buckets
others-get key c m e = elim (Option-cases (get c.key m.buckets)) [
  | inl h ↦ let anew = get-put key (fresh c.key c.now m) m.buckets in ground (arith, h, anew)
  | inr (b, h) ↦
      let named = get-key c.key m.buckets {b = b} h in
      let anew = get-put key (fresh c.key c.now m) m.buckets in
      let more = get-put key (record b { count = suc b.count }) m.buckets in
      ground (arith, h, named, anew, more)
]

Before-mono : (a b : ℕ) → a ≤ b → (cs : List Call) → Before a cs → Before b cs
Before-mono a b g [] k = tt
Before-mono a b g (x ∷ xs) k = (omega arith, Before-mono a b g xs k.1)

module _ (key : ℕ) where
  -- While the bucket is open, what is left of the count.
  open-le :
      (t : ℕ) (cs : List Call) (m : FixedWindowRateLimiter) (b : Bucket)
      → get key m.buckets ≡ some b
      → Before b.reset_at cs
      → granted key cs (answers consume_swept cs m) ≤ m.max - b.count
  unfolding answers granted
  open-le t [] m b e h = omega arith
  open-le t (c ∷ cs) m b e h = elim (Bool-cases (c.key == key)) [
    | inr other ↦
        let rest = open-le t cs (step_of c m) b (others-get key c m other ∙ e) h.1 in
        ground (arith, rest, same-max c m)
    | inl mine ↦
        let same = (==_iff c.key key).0 mine in
        let found : get c.key m.buckets ≡ some b =
          subst (λ k. get k m.buckets ≡ some b) (sym same) e in
        let early = h.0 in
        elim (Bool-cases (ltb b.count m.max)) [
          | inl room ↦
              let bigger = record b { count = suc b.count } in
              let stepped : step_of c m ≡ with_bucket bigger m =
                ground (arith, found, room, early) in
              let named = get-key c.key m.buckets {b = b} found in
              let there : get key (step_of c m).buckets ≡ some bigger =
                rw stepped (rw (get-put key bigger m.buckets) (ground arith)) in
              let rest = open-le t cs (step_of c m) bigger there h.1 in
              ground (arith, rest, found, same-max c m)
          | inr full ↦
              let stepped : step_of c m ≡ m = ground (arith, found, full, early) in
              let rest = open-le t cs (step_of c m) b (rw stepped e) h.1 in
              ground (arith, rest, found, same-max c m)
        ]
  ]

  closed-le :
      (t : ℕ) (cs : List Call) (m : FixedWindowRateLimiter)
      → InOrder t cs
      → live t (get key m.buckets) ≡ none
      → Before (t + m.window_ms) cs
      → granted key cs (answers consume_swept cs m) ≤ max 1 m.max
  unfolding answers granted
  closed-le t [] m order e h = omega arith
  closed-le t (c ∷ cs) m order e h = elim (Bool-cases (c.key == key)) [
    | inr other ↦
        let dead : live c.now (get key (step_of c m).buckets) ≡ none =
          rw (others-get key c m other) (live-later t c.now (get key m.buckets) none order.0 e) in
        let rest = closed-le c.now cs (step_of c m) order.1 dead (
          Before-mono _ (c.now + (step_of c m).window_ms) (omega (arith, same-window c m, order.0))
            cs h.1) in
        ground (arith, rest, same-max c m)
    | inl mine ↦
        let same = (==_iff c.key key).0 mine in
        let dead = live-later t c.now (get key m.buckets) none order.0 e in
        let shut : live c.now (get c.key m.buckets) ≡ none =
          subst (λ k. live c.now (get k m.buckets) ≡ none) (sym same) dead in
        let stepped : consume_swept c.key c.now m
            ≡ (allowed_result, with_bucket (fresh c.key c.now m) m) =
          ground (arith, shut) in
        let there : get key (with_bucket (fresh c.key c.now m) m).buckets
            ≡ some (fresh c.key c.now m) =
          rw (get-put key (fresh c.key c.now m) m.buckets, mine) refl in
        let rest =
          open-le c.now cs (with_bucket (fresh c.key c.now m) m) (fresh c.key c.now m) there
            (Before-mono _ (c.now + m.window_ms) (omega (arith, order.0)) cs h.1) in
        rw (mine, stepped) (omega (arith, rest))
  ]

-- When a key has no open window, at most `max` of its calls pass, and one if `max` is 0, among all
-- the calls of the next `windowMs` milliseconds, whatever the calls of the other keys and the sweeps.
pub window_bound :
    (key t : ℕ) (cs : List Call) (l : FixedWindowRateLimiter)
    → DistinctBy key_of l.buckets
    → InOrder t cs
    → live t (get key l.buckets) ≡ none
    → Before (t + l.window_ms) cs
    → granted key cs (answers consume cs l) ≤ max 1 l.max
window_bound key t cs l distinct order dead within =
    rw
      (answers-Agree t cs l l order (record {
        same_max = refl;
        same_window = refl;
        distinct = distinct;
        same_live = λ k. refl;
      }))
      (closed-le key t cs l order dead within)
