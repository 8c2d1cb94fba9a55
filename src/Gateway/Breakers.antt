-- ===== src/Gateway/Breakers.antt =====
-- resilience/circuit-breaker.service.ts, resilience/resilience.controller.ts and
-- health/health.controller.ts: the circuit breakers of the services, and what is told of them.
-- The breakers of opossum are a parameter.
pub mod Checking
use Prim.Native.String.{◌++◌ as str_append}
use edge_sphere_self_hosted.Prelude.{
  ℕ, ◌-◌, ◌/◌, ◌≡◌, List, [], ◌∷◌, ◌++◌, map, Bool, true, false, not, ◌||◌, Option, none, some,
  String, str_eq, if◌then◌else◌,
}
use edge_sphere_self_hosted.Prelude.Maps.{lookup, insert}

pub record CircuitStats : Type 0 where
  pub successes : ℕ
  pub failures : ℕ
  pub rejects : ℕ
  pub fallbacks : ℕ
  pub fires : ℕ

-- What a promise rejects with; `open_text` tells whether the message contains 'Breaker is open'.
pub record Failure : Type 0 where
  pub code : Option String
  pub message : String
  pub open_text : Bool

-- How `fire` ends: whether it called the function, and what its promise rejects with, if it does.
pub record Fired : Type 0 where
  pub called : Bool
  pub error : Option Failure

-- opossum. `fire b outcome` is a call in which the function, if it is called, ends with `outcome`
-- (`none` is a success) before the timeout. The laws are those that the documentation states: a new
-- breaker is closed, an open one rejects without a call, a closed one calls the function and passes
-- its outcome on, a success does not open it, and `close` closes.
pub record Opossum : Type 1 where
  pub Breaker : Type 0
  pub create : Breaker
  pub opened : Breaker → Bool
  pub half_open : Breaker → Bool
  pub stats : Breaker → CircuitStats
  pub fire : Breaker → Option Failure → Breaker × Fired
  pub close : Breaker → Breaker
  pub opened-create : opened create ≡ false
  pub half_open-create : half_open create ≡ false
  pub fire_open :
      (b : Breaker) (outcome : Option Failure)
      → opened b ≡ true
      → (fire b outcome).1 ≡ (record {
        called = false;
        error =
            some (record {
              code = some "EOPENBREAKER";
              message = "Breaker is open";
              open_text = true;
            });
      })
  pub fire_closed :
      (b : Breaker) (outcome : Option Failure)
      → opened b ≡ false
      → half_open b ≡ false
      → (fire b outcome).1 ≡ (record { called = true; error = outcome })
  pub opened-fire :
      (b : Breaker)
      → opened b ≡ false
      → half_open b ≡ false
      → (opened (fire b none).0 ≡ false) × (half_open (fire b none).0 ≡ false)
  pub opened-close : (b : Breaker) → opened (close b) ≡ false
  pub half_open-close : (b : Breaker) → half_open (close b) ≡ false

pub data State : Type 0 where
  is_open is_half_open is_closed : State

pub record Status : Type 0 where
  pub service : String
  pub state : State
  pub stats : CircuitStats

-- How `execute` ends.
pub data Executed : Type 0 where
  resolved : Executed
  unavailable : (message : String) (retry_after : ℕ) → Executed
  rejected : Failure → Executed

pub data ResetAnswer : Type 0 where
  not_found : (message : String) → ResetAnswer
  reset : (message : String) → ResetAnswer

-- What the health check learns of a service: whether its answer was a success (`none` for no
-- answer), and the time that it took.
pub record Probe : Type 0 where
  pub ok : Option Bool
  pub latency : ℕ

pub data ServiceStatus : Type 0 where
  up down degraded : ServiceStatus

pub record ServiceHealth : Type 0 where
  pub status : ServiceStatus
  pub circuit_state : State
  pub latency_ms : ℕ

pub data Overall : Type 0 where
  healthy is_degraded unhealthy : Overall

pub record Health : Type 0 where
  pub status : Overall
  pub uptime : ℕ
  pub services : List (String × ServiceHealth)

unfoldable pub created_services : List String
created_services =
    "auth-service" ∷ "storage-service" ∷ "analytics-service" ∷ "cdn-service" ∷ "cache-service" ∷ []

unfoldable pub has_open_code : Option String → Bool
has_open_code none = false
has_open_code (some code) = str_eq code "EOPENBREAKER"

unfoldable pub is_open_error : Failure → Bool
is_open_error e = has_open_code e.code || e.open_text

-- The `catch` of `execute`.
unfoldable pub executed : (service : String) → Option Failure → Executed
executed service none = resolved
executed service (some e) =
    if is_open_error e
    then unavailable (str_append "Service " (str_append service " is unavailable")) 30
    else rejected e

unfoldable pub is_down : Option Bool → Bool
is_down none = true
is_down (some ok) = not ok

unfoldable pub trips : State → Bool
trips is_closed = false
trips is_open = true
trips is_half_open = true

unfoldable pub service_health : State → Probe → ServiceHealth
service_health state probe = record {
  status = if trips state then degraded else if is_down probe.ok then down else up;
  circuit_state = state;
  latency_ms = probe.latency;
}

unfoldable pub degrades : State → Probe → Bool
degrades state probe = is_down probe.ok || trips state

unfoldable pub checked_services : List String
checked_services = "auth-service" ∷ "storage-service" ∷ "analytics-service" ∷ []

module _ (O : Opossum) where
  open O use {Breaker}

  unfoldable pub create_breaker :
      (service : String) → List (String × Breaker) → List (String × Breaker)
  create_breaker service breakers = insert service O.create breakers

  unfoldable pub create_all : List String → List (String × Breaker) → List (String × Breaker)
  create_all [] breakers = breakers
  create_all (service ∷ services) breakers = create_all services (create_breaker service breakers)

  unfoldable pub on_module_init : List (String × Breaker)
  on_module_init = create_all created_services []

  -- `this.breakers.get(serviceName)`, or the breaker that is created for it.
  unfoldable pub breaker_for : Option Breaker → Breaker
  breaker_for none = O.create
  breaker_for (some b) = b

  -- The function ends with `outcome` when it is called. The first `Bool` of the result tells whether
  -- it was.
  unfoldable pub execute :
      (service : String) (outcome : Option Failure)
      → List (String × Breaker)
      → List (String × Breaker) × Bool × Executed
  execute service outcome breakers =
      let fired = O.fire (breaker_for (lookup service breakers)) outcome in
      (insert service fired.0 breakers, fired.1.called, executed service fired.1.error)

  unfoldable pub state_of : Breaker → State
  state_of b = if O.opened b then is_open else if O.half_open b then is_half_open else is_closed

  unfoldable pub state_or_closed : Option Breaker → State
  state_or_closed none = is_closed
  state_or_closed (some b) = state_of b

  unfoldable pub get_status : List (String × Breaker) → List Status
  get_status breakers =
      map (λ entry. record { service = entry.0; state = state_of entry.1; stats = O.stats entry.1 })
        breakers

  unfoldable pub get_breaker_state : (service : String) → List (String × Breaker) → State
  get_breaker_state service breakers = state_or_closed (lookup service breakers)

  unfoldable pub close_found :
      (service : String) → List (String × Breaker) → Option Breaker → List (String × Breaker) × Bool
  close_found service breakers none = (breakers, false)
  close_found service breakers (some b) = (insert service (O.close b) breakers, true)

  unfoldable pub reset_breaker :
      (service : String) → List (String × Breaker) → List (String × Breaker) × Bool
  reset_breaker service breakers = close_found service breakers (lookup service breakers)

  -- ResilienceController.resetBreaker.
  unfoldable pub reset_route :
      (service : String) → List (String × Breaker) → List (String × Breaker) × ResetAnswer
  reset_route service breakers =
      let done = reset_breaker service breakers in
      (
        done.0,
        if done.1
            then reset
                (str_append "Circuit breaker for " (str_append service " reset successfully"))
            else not_found (str_append "Circuit breaker for " (str_append service " not found")),
      )

  unfoldable pub any_degrades : (String → Probe) → List (String × Breaker) → List String → Bool
  any_degrades probe breakers [] = false
  any_degrades probe breakers (service ∷ services) =
      degrades (get_breaker_state service breakers) (probe service)
      || any_degrades probe breakers services

  -- HealthController.check. `probe` is the answer of a service; times are in milliseconds.
  unfoldable pub check :
      (probe : String → Probe) (start_time now : ℕ) → List (String × Breaker) → Health
  check probe start_time now breakers = record {
    status = if any_degrades probe breakers checked_services then is_degraded else healthy;
    uptime = (now - start_time) / 1000;
    services =
        map
          (λ service.
            (service, service_health (get_breaker_state service breakers) (probe service)))
          checked_services;
  }
