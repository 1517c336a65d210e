-- ===== src/RateLimiter/Tests.antt =====
-- Calls on a Redis with one counter, and the theorems at them.
use aggregator_dpg.Prelude.{
  ℕ, inl, inr, ◌==◌, if◌then◌else◌, Bool-cases, ◌+◌, ◌-◌, ◌≤◌, ◌≡◌, ◌⊎◌, refl, ap, All, Option,
  true, false, none, some, [], ◌∷◌, List, String, arith,
}
use aggregator_dpg.Prelude.Decimal.{decimal}
use aggregator_dpg.RateLimiter.{RateLimitOptions, Redis, full_key, count_of, consume}
use aggregator_dpg.RateLimiter.Window.{
  Counts, OnBucket, granted, uncounted, granted-le, consume-Waits,
}

abbrev one_counter : Redis ℕ
one_counter = record {
  incrby_expire = λ k c t w. (some (some (w + c)), w + c);
  decrby = λ k c w. w - c;
}

abbrev number_of : Option (Option ℕ) → ℕ
number_of none = 0
number_of (some reply) = count_of reply

-- A Redis that is down.
abbrev down : Redis ℕ
down = record { incrby_expire = λ k c t w. (none, w); decrby = λ k c w. w }

-- A Redis that counts but loses the reply to a cost of two, and answers a cost of seven with an
-- error.
abbrev shaky_reply : ℕ → ℕ → Option (Option ℕ) × ℕ
shaky_reply c w =
    if c == 2
    then (none, w + c)
    else if c == 7
    then (some none, w)
    else (some (some (w + c)), w + c)

abbrev shaky : Redis ℕ
shaky = record { incrby_expire = λ k c t w. shaky_reply c w; decrby = λ k c w. w - c }

shaky_counts : (c w n v : ℕ) → shaky_reply c w ≡ (some (some n), v) → (w + c ≤ n) × (n ≤ v)
shaky_counts c w n v e = elim (Bool-cases (c == 2)) [
  | inl two ↦
      let e' : ◌≡◌ {A = Option (Option ℕ) × ℕ} (none, w + c) (some (some n), v) = rw two at e in
      let no : ◌≡◌ {A = Option (Option ℕ)} none (some (some n)) = ap (λ p. p.0) e' in cc
  | inr more ↦ elim (Bool-cases (c == 7)) [
    | inl seven ↦
        let e' : ◌≡◌ {A = Option (Option ℕ) × ℕ} (some none, w) (some (some n), v) =
          rw (more, seven) at e in
        let no : ◌≡◌ {A = Option (Option ℕ)} (some none) (some (some n)) = ap (λ p. p.0) e' in cc
    | inr other ↦
        let e' : ◌≡◌ {A = Option (Option ℕ) × ℕ} (some (some (w + c)), w + c) (some (some n), v) =
          rw (more, other) at e in
        let number : w + c ≡ n = ap (λ p. number_of p.0) e' in
        let state : w + c ≡ v = ap (λ p. p.1) e' in (omega arith, omega arith)
  ]
]

-- No reply of it lowers the counter.
shaky_le : (c w : ℕ) → w ≤ (shaky_reply c w).1
shaky_le c w = ground arith

shaky_keeps : (c w v : ℕ) (r : Option (Option ℕ)) → shaky_reply c w ≡ (r, v) → w ≤ v
shaky_keeps c w v r e =
    let same : (shaky_reply c w).1 ≡ v = ap (λ p. p.1) e in omega (arith, shaky_le c w, same)

shaky_decr : (c w : ℕ) → w ≤ w - c + c
shaky_decr c w = omega arith

abbrev counts_of : (k : String) → Counts shaky k
counts_of k = record {
  value = λ w. w;
  incr-counts = λ c t. shaky_counts c;
  incr-fails = λ c t w v. shaky_keeps c w v none;
  incr-errs = λ c t w v. shaky_keeps c w v (some none);
  decr-counts = shaky_decr;
}

abbrev mint : ℕ → RateLimitOptions
mint n = record {
  namespace = "invite-mint";
  key = "org";
  window_seconds = 60;
  max = 5;
  cost = some n;
  fail_closed = true;
}

abbrev calls : List (RateLimitOptions × ℕ)
calls = (mint 1, 61000) ∷ (mint 2, 61500) ∷ (mint 3, 62000) ∷ (mint 7, 63000) ∷ (mint 0, 90000) ∷ []

-- The second call is denied though it is counted, the third is refused and refunded, the fourth is
-- let through uncounted, and the last counts as one.
calls-granted : granted shaky calls 0 ≡ 9
unfolding granted consume
calls-granted = refl

calls-uncounted : uncounted shaky calls 0 ≡ 7
unfolding uncounted consume
calls-uncounted = refl

refused_down : (consume down (mint 3) 61000 0).0.allowed ≡ false
unfolding consume
refused_down = refl

calls-OnBucket : All (OnBucket shaky "rl:invite-mint:org:60" 5) calls
unfolding full_key decimal
calls-OnBucket = (
  (refl, refl, refl),
  ((refl, refl, refl), ((refl, refl, refl), ((refl, refl, refl), ((refl, refl, refl), tt)))),
)

granted-le_example : granted shaky calls 0 ≤ 5 - 0 + uncounted shaky calls 0
granted-le_example =
    granted-le shaky "rl:invite-mint:org:60" 5 (counts_of "rl:invite-mint:org:60") calls 0
      calls-OnBucket

consume-Waits_example :
    let r = (consume one_counter (mint 4) 62000 3).0 in
    ((r.allowed ≡ true) × (r.retry_after_seconds ≡ 0))
    ⊎ ((r.allowed ≡ false) × (1 ≤ r.retry_after_seconds) × (r.retry_after_seconds ≤ 60))
consume-Waits_example = consume-Waits one_counter (mint 4) 62000 3 (omega arith)
