-- ===== src/RateLimiter.antt =====
-- `consume` of apps/api/src/services/rate-limiter/index.ts. Redis is an argument, with a state `W`
-- of its own; a cost and a maximum are whole numbers. The connection (`getRedis`,
-- `closeRateLimiter`) and the log are left out.
pub mod Window
mod Tests
use Prim.Native.String.{◌++◌ as ◌+ₛ◌}
use aggregator_dpg.Prelude.{
  ℕ, zero, suc, ◌+◌, ◌-◌, ◌*◌, ◌/◌, String, Bool, true, false, Option, none, some, ltb, leb,
  if◌then◌else◌,
}
use aggregator_dpg.Prelude.Decimal.{decimal}

pub record RateLimitOptions : Type 0 where
  pub namespace : String
  pub key : String
  pub window_seconds : ℕ
  pub max : ℕ
  pub cost : Option ℕ
  pub fail_closed : Bool

pub record RateLimitResult : Type 0 where
  pub allowed : Bool
  pub count : ℕ
  pub retry_after_seconds : ℕ

-- What the code calls of the client. `incrby_expire key cost seconds` is
-- `multi().incrby(key, cost).expire(key, seconds).exec()`: nothing where it rejects, and nothing
-- inside `some` where the reply's first entry holds no number. `decrby` is called with its
-- rejection caught.
pub record Redis (W : Type 0) : Type 0 where
  pub incrby_expire : String → ℕ → ℕ → W → Option (Option ℕ) × W
  pub decrby : String → ℕ → W → W

-- `Math.floor(now / 1000 / windowSeconds) * windowSeconds`
unfoldable pub window_start : RateLimitOptions → ℕ → ℕ
window_start o now = now / 1000 / o.window_seconds * o.window_seconds

unfoldable pub full_key : RateLimitOptions → ℕ → String
unfolding window_start
full_key o now = "rl:" +ₛ (o.namespace +ₛ (":" +ₛ (o.key +ₛ (":" +ₛ decimal (window_start o now)))))

abbrev pub at_least_one : ℕ → ℕ
at_least_one zero = 1
at_least_one (suc n) = suc n

unfoldable pub cost_of : RateLimitOptions → ℕ
cost_of o = elim o.cost [ none ↦ 1 | some c ↦ at_least_one c ]

abbrev pub count_of : Option ℕ → ℕ
count_of none = 0
count_of (some n) = n

unfoldable pub denied : RateLimitOptions → ℕ → ℕ → RateLimitResult
unfolding window_start
denied o now count = record {
  allowed = false;
  count = count;
  retry_after_seconds = at_least_one (window_start o now + o.window_seconds - now / 1000);
}

abbrev pub admitted : ℕ → RateLimitResult
admitted count = record { allowed = true; count = count; retry_after_seconds = 0 }

-- The `catch`.
unfoldable pub on_failure : RateLimitOptions → RateLimitResult
on_failure o =
    if o.fail_closed
    then record { allowed = false; count = 0; retry_after_seconds = o.window_seconds }
    else admitted 0

module _ {W : Type 0} (redis : Redis W) where
  unfoldable pub judge : RateLimitOptions → ℕ → Option (Option ℕ) × W → RateLimitResult × W
  unfolding full_key cost_of denied on_failure
  judge o now (none, w) = (on_failure o, w)
  judge o now (some reply, w) =
      if ltb o.max (count_of reply)
      then (denied o now (count_of reply), redis.decrby (full_key o now) (cost_of o) w)
      else (admitted (count_of reply), w)

  unfoldable pub consume : RateLimitOptions → ℕ → W → RateLimitResult × W
  unfolding judge
  consume o now w =
      judge o now (redis.incrby_expire (full_key o now) (cost_of o) (o.window_seconds + 1) w)
