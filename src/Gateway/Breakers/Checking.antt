-- ===== src/Gateway/Breakers/Checking.antt =====
-- The health check, told from what the services and their breakers say.
use edge_sphere_self_hosted.Prelude.{
  ℕ, ◌≡◌, ◌≢◌, refl, ◌↔◌, inl, inr, List, [], ◌∷◌, Bool, true, false, Option, none, some, String,
  Bool-cases, All,
}
use edge_sphere_self_hosted.Gateway.Breakers.{
  Opossum, Probe, healthy, unhealthy, State, is_closed, is_open, is_half_open, trips, degrades,
  is_down, get_breaker_state, checked_services, any_degrades, check,
}

-- The service answers with a success, and its breaker is closed.
abbrev pub IsFine : State → Probe → Type 0
IsFine state probe = (probe.ok ≡ some true) × (state ≡ is_closed)

fine→quiet : (state : State) (probe : Probe) → IsFine state probe → degrades state probe ≡ false
unfolding degrades is_down trips
fine→quiet state probe (answered, shut) = rw (answered, shut) refl

answered_of : (ok : Option Bool) → is_down ok ≡ false → ok ≡ some true
unfolding is_down
answered_of none e = cc
answered_of (some true) e = refl
answered_of (some false) e = cc

closed_of : (state : State) → trips state ≡ false → state ≡ is_closed
unfolding trips
closed_of is_closed e = refl
closed_of is_open e = cc
closed_of is_half_open e = cc

quiet→fine : (state : State) (probe : Probe) → degrades state probe ≡ false → IsFine state probe
unfolding degrades
quiet→fine state probe e = elim (Bool-cases (is_down probe.ok)) [
  | inl down ↦ absurd (cc (rw down at e))
  | inr answered ↦ (answered_of probe.ok answered, closed_of state (rw answered at e))
]

module _ (O : Opossum) where
  open O use {Breaker}

  module _ (probe : String → Probe) (breakers : List (String × Breaker)) where
    abbrev pub IsWell : String → Type 0
    IsWell service = IsFine (get_breaker_state O service breakers) (probe service)

    well→quiet :
        (services : List String)
        → All IsWell services
        → any_degrades O probe breakers services ≡ false
    unfolding any_degrades
    well→quiet [] h = refl
    well→quiet (service ∷ services) (h, hs) =
        rw
          (
            fine→quiet (get_breaker_state O service breakers) (probe service) h,
            well→quiet services hs,
          )
          refl

    quiet→well :
        (services : List String)
        → any_degrades O probe breakers services ≡ false
        → All IsWell services
    unfolding any_degrades
    quiet→well [] e = tt
    quiet→well (service ∷ services) e =
        let state = get_breaker_state O service breakers in
        elim (Bool-cases (degrades state (probe service))) [
          | inl degraded ↦ absurd (cc (rw degraded at e))
          | inr fine ↦ (quiet→fine state (probe service) fine, quiet→well services (rw fine at e))
        ]

    -- The health check answers "healthy" exactly when the accounts, storage and analytics services
    -- all answer with a success and their breakers are closed, and it never answers "unhealthy".
    pub check-status :
        (start_time now : ℕ)
        → (((check O probe start_time now breakers).status ≡ healthy) ↔ All IsWell checked_services)
          × ((check O probe start_time now breakers).status ≢ unhealthy)
    unfolding check
    check-status start_time now =
        elim (Bool-cases (any_degrades O probe breakers checked_services)) [
          | inl degraded ↦ rw degraded (
            ((λ e. cc), (λ h. absurd (cc (rw (well→quiet checked_services h) at degraded)))),
            λ e. cc,
          )
          | inr quiet ↦ rw quiet (((λ e. quiet→well checked_services quiet), (λ h. refl)), λ e. cc)
        ]
