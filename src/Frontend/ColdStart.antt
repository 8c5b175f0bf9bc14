-- ===== src/Frontend/ColdStart.antt =====
-- `requestStarted`, `requestFinished` and `setCold` of frontend/src/lib/api.js: the hint that the
-- server is only now waking up.
use transactguard.Prelude.{
  ℕ, ◌⊎◌, ◌+◌, ◌-◌, ◌≡◌, refl, arith, Bool, true, false, not, ◌&&◌, Option, none, some, List, [],
  ◌∷◌, ◌==◌, ltb, if◌then◌else◌, inr,
}

-- `timer` is `coldTimer`, which keeps its value when the timer has gone off; `pending` whether the
-- browser still has it to fire. `told` is what the listeners have been told last.
pub record Hint : Type 0 where
  pub in_flight : ℕ
  pub timer : Bool
  pub pending : Bool
  pub is_cold : Bool
  pub told : Option Bool

at_load : Hint
at_load = record { in_flight = 0; timer = false; pending = false; is_cold = false; told = none }

-- `isCold === next`
abbrev same : Bool → Bool → Bool
same true b = b
same false b = not b

set_cold : Bool → Hint → Hint
set_cold next h = if same h.is_cold next then h else record h { is_cold = next; told = some next }

request_started : Hint → Hint
request_started h =
    let n = h.in_flight + 1 in
    if n == 1 && not h.timer
    then record h { in_flight = n; timer = true; pending = true }
    else record h { in_flight = n }

-- `Math.max(0, inFlight - 1)`
request_finished : Hint → Hint
unfolding set_cold
request_finished h =
    let n = h.in_flight - 1 in
    if n == 0
    then set_cold false (record h { in_flight = n; timer = false; pending = false })
    else record h { in_flight = n }

-- The timer goes off, if it is still there to.
timer_fired : Hint → Hint
unfolding set_cold
timer_fired h = if h.pending then set_cold true (record h { pending = false }) else h

pub data Happening : Type 0 where
  started finished fired : Happening

happen : Happening → Hint → Hint
unfolding request_started request_finished timer_fired
happen started h = request_started h
happen finished h = request_finished h
happen fired h = timer_fired h

happen_all : List Happening → Hint → Hint
happen_all [] h = h
happen_all (e ∷ rest) h = happen_all rest (happen e h)

-- A timer runs exactly while a request is in flight, the hint is on only then, and the listeners know
-- of it.
abbrev Truthful : Hint → Type 0
Truthful h =
    (h.timer ≡ ltb 0 h.in_flight)
    × ((h.pending ≡ true) → h.timer ≡ true)
    × ((h.is_cold ≡ true) → h.timer ≡ true)
    × ((h.is_cold ≡ true) → h.told ≡ some true)
    × ((h.is_cold ≡ false) → (h.told ≡ some false) ⊎ (h.told ≡ none))

happen-Truthful : (e : Happening) (h : Hint) → Truthful h → Truthful (happen e h)
unfolding happen request_started request_finished timer_fired set_cold
happen-Truthful started h (a, b, c, d, e) = (
  ground (arith, a, b, c),
  ground (arith, a, b, c),
  ground (arith, a, b, c),
  ground (arith, d),
  ground (arith, e),
)
happen-Truthful finished h (a, b, c, d, e) = (
  ground (arith, a, b, c),
  ground (arith, a, b, c),
  ground (arith, a, b, c),
  ground (arith, a, b, c, d),
  ground (arith, e),
)
happen-Truthful fired h (a, b, c, d, e) = (
  ground (arith, a, b, c),
  ground (arith, a, b, c),
  ground (arith, a, b, c),
  ground (arith, d),
  ground (arith, e),
)

happen_all-from : (events : List Happening) (h : Hint) → Truthful h → Truthful (happen_all events h)
unfolding happen_all
happen_all-from [] h t = t
happen_all-from (e ∷ rest) h t = happen_all-from rest (happen e h) (happen-Truthful e h t)

-- However requests start and end and the timer goes off: the timer is there exactly while a request
-- is in flight, the hint is on only then, and the listeners were told last what it says now.
happen_all-Truthful : (events : List Happening) → Truthful (happen_all events at_load)
unfolding at_load
happen_all-Truthful events =
    happen_all-from events at_load
      (refl, λ p. absurd (cc), λ c. absurd (cc), λ c. absurd (cc), λ c. inr refl)
