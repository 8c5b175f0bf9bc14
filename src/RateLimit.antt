-- ===== src/RateLimit.antt =====
-- backend/src/middleware/rateLimit.js and demoAccountLimit.js: a fixed window over a counter in Redis,
-- which is a parameter. Times are in seconds; a key is a number.
pub mod Windows
use text.Mathlib.Text.{◌==◌ as str_eq}
use transactguard.Prelude.{
  ℕ, suc, ◌+◌, ◌-◌, ◌≡◌, String, Bool, true, false, Option, none, some, List, [], ◌∷◌, leb, ltb,
  ◌==◌, if◌then◌else◌,
}
use transactguard.Errors.{ApiError, Result, ok, throw}
use transactguard.Errors.Raise

-- A counter: its count, and the time at which it goes, if one is set.
pub record Entry : Type 0 where
  pub count : ℕ
  pub expires : Option ℕ

-- What is left of an entry at a time.
abbrev pub live_entry : Option Entry → ℕ → Entry
live_entry none now = record { count = 0; expires = none }
live_entry (some e) now = elim e.expires [
  | none ↦ e
  | some t ↦ if ltb now t then e else record { count = 0; expires = none }
]

-- `redis.multi().incr(key).ttl(key)` and `redis.expire(key, seconds)`.
pub record Counters : Type 1 where
  pub Keys : Type 0
  pub entry : ℕ → Keys → Option Entry
  pub incr : (key now : ℕ) → Keys → ℕ × Keys
  pub expire : (key seconds now : ℕ) → Keys → Keys
  pub incr-count :
      (key now : ℕ) (k : Keys) → (incr key now k).0 ≡ (live_entry (entry key k) now).count + 1
  pub incr-entry :
      (key now : ℕ) (k : Keys)
      → entry key (incr key now k).1
        ≡ some (record {
          count = (live_entry (entry key k) now).count + 1;
          expires = (live_entry (entry key k) now).expires;
        })
  pub expire-entry :
      (key seconds now : ℕ) (k : Keys) (e : Entry)
      → entry key k ≡ some e
      → entry key (expire key seconds now k)
        ≡ some (record { count = e.count; expires = some (now + seconds) })

-- The options of a limiter.
pub record Limit : Type 0 where
  pub max : ℕ
  pub window_seconds : ℕ

-- The `RateLimit-*` headers of a request that is counted.
pub record Headers : Type 0 where
  pub limit : ℕ
  pub remaining : ℕ
  pub reset : ℕ

-- When Redis answers: the first command, and the `EXPIRE` that may follow.
pub record Answers : Type 0 where
  pub multi_up : Bool
  pub expire_up : Bool

abbrev pub expiry : Option Entry → Option ℕ
expiry none = none
expiry (some e) = e.expires

-- The test of the count, after the counter has been read.
pub decide : Limit → ℕ → ℕ → Result (Option Headers)
decide l count ttl =
    if ltb l.max count
    then throw Raise.too_many_requests
    else ok (some (record { limit = l.max; remaining = l.max - count; reset = ttl }))

module _ (C : Counters) where
  -- A negative `ttl` is a counter without an expiry, which is set then.
  with_ttl : Limit → ℕ → ℕ → Answers → ℕ → C.Keys → Option ℕ → Result (Option Headers) × C.Keys
  unfolding decide
  with_ttl l key now up count keys (some t) = (decide l count (t - now), keys)
  with_ttl l key now up count keys none =
      if up.expire_up
      then (decide l count l.window_seconds, C.expire key l.window_seconds now keys)
      else (ok none, keys)

  -- `rateLimiter`. `none` is a request that is let through without being counted.
  unfoldable pub rate_limiter : Limit → ℕ → ℕ → Answers → C.Keys → Result (Option Headers) × C.Keys
  unfolding with_ttl
  rate_limiter l key now up keys =
      if up.multi_up
      then (let (count, keys') = C.incr key now keys in
          with_ttl l key now up count keys' (expiry (C.entry key keys')))
      else (ok none, keys)

  -- `demoAccountLimit`: one counter for the demo account, from wherever it is used.
  unfoldable pub demo_account_limit :
      String → Limit → ℕ → String → ℕ → Answers → C.Keys → Result (Option Headers) × C.Keys
  demo_account_limit demo_email l key email now up keys =
      if str_eq email demo_email then rate_limiter l key now up keys else (ok none, keys)
