-- ===== src/RateLimit/Windows.antt =====
-- How many requests of a window get through.
use transactguard.Prelude.{
  ℕ, ◌+◌, ◌<◌, ◌≡◌, String, true, Option, none, some, List, [], ◌∷◌, min, length, All, arith, ltb,
  if◌then◌else◌,
}
use text.Mathlib.TextPositions.{eq_refl}
use transactguard.Errors.{Result, ok, throw}
use transactguard.RateLimit.{
  live_entry, Counters, Limit, Headers, Answers, decide, with_ttl, rate_limiter, demo_account_limit,
}

abbrev pub passes : Result (Option Headers) → ℕ
passes (ok h) = 1
passes (throw e) = 0

abbrev pub answering : Answers
answering = record { multi_up = true; expire_up = true }

-- The demo account's logins at these times: how many get through, and the counters afterwards.
abbrev pub let_through : (C : Counters) → String → Limit → ℕ → List ℕ → C.Keys → ℕ × C.Keys
let_through C demo l key [] keys = (0, keys)
let_through C demo l key (now ∷ times) keys =
    let (r, keys') = demo_account_limit C demo l key demo now answering keys in
    let (n, keys'') = let_through C demo l key times keys' in (passes r + n, keys'')

module _ (C : Counters) (demo : String) (l : Limit) (key : ℕ) where
  -- One more request while the window is open.
  counted :
      (now count end : ℕ) (keys : C.Keys)
      → C.entry key keys ≡ some (record { count = count; expires = some end })
      → now < end
      → (passes (rate_limiter C l key now answering keys).0 ≡ (if ltb count l.max then 1 else 0))
        × (C.entry key (rate_limiter C l key now answering keys).1
            ≡ some (record { count = count + 1; expires = some end }))
  unfolding rate_limiter with_ttl decide
  counted now count end keys e lt =
      let a = C.incr-count key now keys in
      let b = C.incr-entry key now keys in
      let t : ltb now end ≡ true = ground arith in
      let a' = rw (e, t) at a in let b' = rw (e, t) at b in (rw (a', b') (ground arith), rw b' b')

  -- The first request of a window, when no counter is left of an earlier one.
  opened :
      (now : ℕ) (keys : C.Keys)
      → live_entry (C.entry key keys) now ≡ record { count = 0; expires = none }
      → (passes (rate_limiter C l key now answering keys).0 ≡ (if ltb 0 l.max then 1 else 0))
        × (C.entry key (rate_limiter C l key now answering keys).1
            ≡ some (record { count = 1; expires = some (now + l.window_seconds) }))
  unfolding rate_limiter with_ttl decide
  opened now keys e =
      let a = C.incr-count key now keys in
      let b = C.incr-entry key now keys in
      let a' = rw e at a in
      let b' = rw e at b in
      let x = C.expire-entry key l.window_seconds now (C.incr key now keys).1 _ b' in
      (rw (a', b') (ground arith), rw b' x)

  -- A login of the demo account goes through its limiter.
  demo_limited :
      (now : ℕ) (keys : C.Keys)
      → demo_account_limit C demo l key demo now answering keys
        ≡ rate_limiter C l key now answering keys
  unfolding demo_account_limit
  demo_limited now keys = rw (eq_refl demo)

  let_through-open :
      (times : List ℕ) (count end : ℕ) (keys : C.Keys)
      → C.entry key keys ≡ some (record { count = count; expires = some end })
      → All (λ t. t < end) times
      → (let_through C demo l key times keys).0 + min l.max count ≡ min l.max (count + length times)
  let_through-open [] count end keys e h = omega arith
  let_through-open (now ∷ times) count end keys e h =
      let (p, e') = counted now count end keys e h.0 in
      let keys' = (rate_limiter C l key now answering keys).1 in
      let ih = let_through-open times (count + 1) end keys' e' h.1 in
      rw (demo_limited now keys) (ground (arith, p, ih))

  -- Logins of the demo account within one window, however many there are and wherever they come from:
  -- the first `max` of them get through, and no more, as long as Redis answers.
  pub demo_window_admits :
      (first : ℕ) (times : List ℕ) (keys : C.Keys)
      → live_entry (C.entry key keys) first ≡ record { count = 0; expires = none }
      → All (λ t. t < first + l.window_seconds) times
      → (let_through C demo l key (first ∷ times) keys).0 ≡ min l.max (length (first ∷ times))
  demo_window_admits first times keys e h =
      let (p, e') = opened first keys e in
      let keys' = (rate_limiter C l key first answering keys).1 in
      let ih = let_through-open times 1 (first + l.window_seconds) keys' e' h in
      rw (demo_limited first keys) (ground (arith, p, ih))
