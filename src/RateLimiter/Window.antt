-- ===== src/RateLimiter/Window.antt =====
-- The calls of a window: how much they are granted, and how long a refused caller waits.
use aggregator_dpg.Prelude.{
  Bool, ℕ, zero, suc, ◌+◌, ◌-◌, ◌*◌, ◌/◌, ◌≤◌, ◌<◌, String, ◌≡◌, refl, sym, ap, ◌⊎◌, inl, inr, true,
  false, Option, none, some, ltb, if◌then◌else◌, List, [], ◌∷◌, All, arith, Bool-cases,
}
use native.Mathlib.Nat.{div-mul-le_self}
use aggregator_dpg.RateLimiter.{
  RateLimitOptions, RateLimitResult, Redis, full_key, cost_of, count_of, denied, on_failure, judge,
  consume, window_start, at_least_one,
}

-- What Redis documents of its counters, while the key lives, which is longer than the window: a
-- reply is the counter with the cost added, a call that fails or is answered with an error may have
-- counted, and `decrby` takes off at most the cost.
pub record Counts {W : Type 0} (redis : Redis W) (k : String) : Type 0 where
  pub value : W → ℕ
  pub incr-counts :
      (c t : ℕ) (w : W) (n : ℕ) (v : W)
      → redis.incrby_expire k c t w ≡ (some (some n), v)
      → (value w + c ≤ n) × (n ≤ value v)
  pub incr-fails : (c t : ℕ) (w v : W) → redis.incrby_expire k c t w ≡ (none, v) → value w ≤ value v
  pub incr-errs :
      (c t : ℕ) (w v : W) → redis.incrby_expire k c t w ≡ (some none, v) → value w ≤ value v
  pub decr-counts : (c : ℕ) (w : W) → value w ≤ value (redis.decrby k c w) + c

-- `exec` has answered, and the first entry holds no number.
abbrev pub is_error_entry : Option (Option ℕ) → Bool
is_error_entry none = false
is_error_entry (some none) = true
is_error_entry (some (some n)) = false

module _ {W : Type 0} (redis : Redis W) where
  abbrev pub reply_to : RateLimitOptions → ℕ → W → Option (Option ℕ) × W
  reply_to o now w = redis.incrby_expire (full_key o now) (cost_of o) (o.window_seconds + 1) w

  -- The slots that a sequence of calls, each with its time, is granted.
  unfoldable pub granted : List (RateLimitOptions × ℕ) → W → ℕ
  granted [] w = 0
  granted (c ∷ cs) w =
      let (result, v) = consume redis c.0 c.1 w in
      let rest = granted cs v in if result.allowed then cost_of c.0 + rest else rest

  -- The slots of the calls that are answered with an error in the place of the number.
  unfoldable pub uncounted : List (RateLimitOptions × ℕ) → W → ℕ
  uncounted [] w = 0
  uncounted (c ∷ cs) w =
      let rest = uncounted cs (consume redis c.0 c.1 w).1 in
      if is_error_entry (reply_to c.0 c.1 w).0 then cost_of c.0 + rest else rest

  -- A call on the bucket `k` with the maximum `m`, which denies on an error.
  abbrev pub OnBucket : String → ℕ → RateLimitOptions × ℕ → Type 0
  OnBucket k m (o, now) = (full_key o now ≡ k) × (o.max ≡ m) × (o.fail_closed ≡ true)

  module _ (k : String) (m : ℕ) (counts : Counts redis k) where
    -- What one call is granted comes off the room that is left in the window, or the call was
    -- answered with an error.
    abbrev Room : RateLimitOptions → W → Option (Option ℕ) → RateLimitResult × W → Type 0
    Room o w reply (result, v) =
        ((result.allowed ≡ true)
          × (cost_of o + counts.value w ≤ m)
          × (cost_of o + counts.value w ≤ counts.value v))
        ⊎ ((result.allowed ≡ false) × (counts.value w ≤ counts.value v))
        ⊎ ((is_error_entry reply ≡ true) × (counts.value w ≤ counts.value v))

    judge-Room :
        (o : RateLimitOptions) (now : ℕ) (w : W)
        → OnBucket k m (o, now)
        → (p : Option (Option ℕ) × W)
        → redis.incrby_expire k (cost_of o) (o.window_seconds + 1) w ≡ p
        → Room o w p.0 (judge redis o now p)
    unfolding judge on_failure denied
    judge-Room o now w (same, cap, closed) (none, v) e =
        rw closed (inr (inl (refl, counts.incr-fails (cost_of o) (o.window_seconds + 1) w v e)))
    judge-Room o now w (same, cap, closed) (some none, v) e =
        let kept = counts.incr-errs (cost_of o) (o.window_seconds + 1) w v e in
        elim (Bool-cases (ltb o.max 0)) [
          | inl over ↦ absurd (ground (arith, over))
          | inr under ↦ rw under (inr (inr (refl, kept)))
        ]
    judge-Room o now w (same, cap, closed) (some (some n), v) e =
        let counted = counts.incr-counts (cost_of o) (o.window_seconds + 1) w n v e in
        elim (Bool-cases (ltb o.max n)) [
          | inl over ↦
              rw (over, same)
                (inr (inl (refl, omega (arith, counted, counts.decr-counts (cost_of o) v))))
          | inr under ↦
              rw under (inl (refl, ground (arith, counted, cap, under), omega (arith, counted)))
        ]

    consume-Room :
        (o : RateLimitOptions) (now : ℕ) (w : W)
        → OnBucket k m (o, now)
        → Room o w (reply_to o now w).0 (consume redis o now w)
    unfolding consume
    consume-Room o now w b =
        judge-Room o now w b (reply_to o now w)
          (ap (λ x. redis.incrby_expire x (cost_of o) (o.window_seconds + 1) w) (sym b.0))

    -- If every call is on the bucket `k`, has the maximum `m` and denies on an error, and Redis
    -- counts, then the calls are together granted at most what `m` leaves above the counter, and
    -- the slots of the calls that Redis answers with an error entry. A call that Redis rejects is
    -- granted nothing.
    pub granted-le :
        (calls : List (RateLimitOptions × ℕ)) (w : W)
        → All (OnBucket k m) calls
        → granted calls w ≤ m - counts.value w + uncounted calls w
    unfolding granted uncounted
    granted-le [] w a = omega arith
    granted-le ((o, now) ∷ calls) w a =
        let rest = granted-le calls (consume redis o now w).1 a.1 in
        elim (consume-Room o now w a.0) [
          | inl (given, fits, kept) ↦
              rw given (elim (Bool-cases (is_error_entry (reply_to o now w).0)) [
                | inl err_entry ↦ rw err_entry (omega (arith, rest, fits, kept))
                | inr number ↦ rw number (omega (arith, rest, fits, kept))
              ])
          | inr (inl (refused, kept)) ↦
              rw refused (elim (Bool-cases (is_error_entry (reply_to o now w).0)) [
                | inl err_entry ↦ rw err_entry (omega (arith, rest, kept))
                | inr number ↦ rw number (omega (arith, rest, kept))
              ])
          | inr (inr (err_entry, kept)) ↦
              rw err_entry (elim (Bool-cases (consume redis o now w).0.allowed) [
                | inl given ↦ rw given (omega (arith, rest, kept))
                | inr refused ↦ rw refused (omega (arith, rest, kept))
              ])
        ]

  -- Allowed without a wait, or refused with one of a second at least and the window at most.
  abbrev Waits : RateLimitOptions → RateLimitResult → Type 0
  Waits o r =
      ((r.allowed ≡ true) × (r.retry_after_seconds ≡ 0))
      ⊎ ((r.allowed ≡ false)
          × (1 ≤ r.retry_after_seconds)
          × (r.retry_after_seconds ≤ o.window_seconds))

  at_least_one-bounds :
      (n top : ℕ) → n ≤ top → 1 ≤ top → (1 ≤ at_least_one n) × (at_least_one n ≤ top)
  at_least_one-bounds zero top h p = (omega arith, p)
  at_least_one-bounds (suc n) top h p = (omega arith, h)

  denied-Waits :
      (o : RateLimitOptions) (now count : ℕ) → 0 < o.window_seconds → Waits o (denied o now count)
  unfolding denied window_start
  denied-Waits o now count positive =
      let start = div-mul-le_self (now / 1000) o.window_seconds in
      let wait =
        at_least_one-bounds
          (now / 1000 / o.window_seconds * o.window_seconds + o.window_seconds - now / 1000)
          o.window_seconds (omega (arith, start)) positive in
      inr (refl, wait.0, wait.1)

  judge-Waits :
      (o : RateLimitOptions) (now : ℕ) (p : Option (Option ℕ) × W)
      → 0 < o.window_seconds
      → Waits o (judge redis o now p).0
  unfolding judge on_failure
  judge-Waits o now (none, w) positive = elim (Bool-cases o.fail_closed) [
    | inl closed ↦ rw closed (inr (refl, omega (arith, positive), omega arith))
    | inr lenient ↦ rw lenient (inl (refl, refl))
  ]
  judge-Waits o now (some reply, w) positive = elim (Bool-cases (ltb o.max (count_of reply))) [
    | inl over ↦ rw over (denied-Waits o now (count_of reply) positive)
    | inr under ↦ rw under (inl (refl, refl))
  ]

  -- A call with a window of one second or more is allowed and told to wait zero seconds, or refused
  -- and told to wait between one second and the window, whatever Redis replies.
  pub consume-Waits :
      (o : RateLimitOptions) (now : ℕ) (w : W)
      → 0 < o.window_seconds
      → let r = (consume redis o now w).0 in
        ((r.allowed ≡ true) × (r.retry_after_seconds ≡ 0))
        ⊎ ((r.allowed ≡ false)
            × (1 ≤ r.retry_after_seconds)
            × (r.retry_after_seconds ≤ o.window_seconds))
  unfolding consume
  consume-Waits o now w positive =
      judge-Waits o now (redis.incrby_expire (full_key o now) (cost_of o) (o.window_seconds + 1) w)
        positive
