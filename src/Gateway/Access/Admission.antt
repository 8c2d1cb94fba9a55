-- ===== src/Gateway/Access/Admission.antt =====
-- Who passes the gateway is authenticated and within the limit.
use mathlib.Core.Path.{subst}
use edge_sphere_self_hosted.Prelude.{
  ℕ, ◌≡◌, refl, sym, ap, ◌∙◌, true, false, not, ◌||◌, Option, none, some, String, str_eq, or_else,
  Bool-cases, Option-cases, inl, inr, ◌⊎◌,
}
use edge_sphere_self_hosted.Redis.{Redis}
use edge_sphere_self_hosted.Gateway.RateLimit.{Verdict, Exec, sliding_window}
use edge_sphere_self_hosted.Gateway.Access.{
  Request, Caller, RateHeaders, next, Outside, is_given, first_given, on_verdict, bearer_token,
  limited, use_api_key, use_token, use_middleware,
}

module _ {V : Type 0} (R : Redis V) where
  open R use {Db}

  -- The sliding window was asked, and allowed the call.
  abbrev pub IsAllowed : (user_id : String) → Outside Db → Db → Type 0
  IsAllowed user_id out db =
      (exec : Exec Db) × (out.exec ≡ some exec)
      × ((sliding_window R user_id out.limit 60000 out.now out.request_id exec db).verdict.allowed
          ≡ true)

  -- The id of the window for a caller with an API key: its `sub`.
  abbrev pub IsKeyId : Caller → (user_id : String) → Type 0
  IsKeyId caller user_id =
      (caller.sub ≡ some user_id) ⊎ ((caller.sub ≡ none) × (user_id ≡ "undefined"))

  -- The id of the window for a caller with a token: the `sub` that is given, or else the `id`.
  abbrev pub IsTokenId : Caller → (user_id : String) → Type 0
  IsTokenId caller user_id =
      ((caller.sub ≡ some user_id) × (is_given caller.sub ≡ true))
      ⊎ (((is_given caller.sub ≡ false) × (caller.id ≡ some user_id) × (is_given caller.id ≡ true))
          ⊎ ((is_given caller.sub ≡ false)
              × (is_given caller.id ≡ false)
              × (user_id ≡ "anonymous")))

  -- The caller is who the auth service names for the API key, or who the token names; the window is
  -- the caller's.
  abbrev pub IsAuthentic : Request → Outside Db → Caller → (user_id : String) → Type 0
  IsAuthentic req out caller user_id =
      ((key : String) × (req.api_key ≡ some key)
        × (out.validate_key key ≡ some caller)
        × IsKeyId caller user_id)
      ⊎ ((token : String) × (secret : String) × (bearer_token req.authorization ≡ some token)
          × (out.jwt_secret ≡ some secret)
          × (out.verify token secret ≡ some caller)
          × IsTokenId caller user_id)

  key_id : (caller : Caller) → IsKeyId caller (or_else caller.sub "undefined")
  key_id caller = elim (Option-cases caller.sub) [
    | inl absent ↦ inr (absent, ap (λ o. or_else o "undefined") absent)
    | inr (sub, present) ↦
        inl (present ∙ ap (λ o. some o) (sym (ap (λ o. or_else o "undefined") present)))
  ]

  given-some : (o : Option String) → is_given o ≡ true → o ≡ some (or_else o "")
  given-some none h = absurd cc
  given-some (some t) h = refl

  token_id : (caller : Caller) → IsTokenId caller (first_given caller.sub caller.id)
  unfolding first_given
  token_id caller = elim (Bool-cases (is_given caller.sub)) [
    | inl given ↦ rw (given) (inl (given-some caller.sub given, refl))
    | inr missing ↦ elim (Bool-cases (is_given caller.id)) [
      | inl named ↦ rw (missing, named) (inr (inl (refl, given-some caller.id named, refl)))
      | inr unnamed ↦ rw (missing, unnamed) (inr (inr (refl, refl, refl)))
    ]
  ]

  verdict-admits :
      (limit later : ℕ) (asked caller : Caller) (v : Verdict) (h : Option RateHeaders)
      → on_verdict limit later asked v ≡ next (some caller) h
      → (asked ≡ caller) × (v.allowed ≡ true)
  unfolding on_verdict
  verdict-admits limit later asked caller v h e = elim (Bool-cases v.allowed) [
    | inl yes_allowed ↦ (cc (simp yes_allowed at e), yes_allowed)
    | inr refused ↦ absurd (cc (simp refused at e))
  ]

  limited-admits :
      (user_id : String) (asked caller : Caller) (out : Outside Db) (db : Db)
      (h : Option RateHeaders)
      → (limited R user_id asked out db).1 ≡ next (some caller) h
      → (asked ≡ caller) × IsAllowed user_id out db
  unfolding limited
  limited-admits user_id asked caller out db h e = elim (Option-cases out.exec) [
    | inl thrown ↦ absurd (cc (rw (thrown, limited) at e))
    | inr (exec, ran) ↦
        let v = (sliding_window R user_id out.limit 60000 out.now out.request_id exec db).verdict in
        let (same, allowed) =
          verdict-admits out.limit out.later asked caller v h (rw (ran, limited) at e) in
        (same, (exec, ran, allowed))
  ]

  key-admits :
      (key : String) (caller : Caller) (out : Outside Db) (db : Db) (h : Option RateHeaders)
      → (use_api_key R key out db).1 ≡ next (some caller) h
      → (out.validate_key key ≡ some caller)
        × (user_id : String) × IsKeyId caller user_id
        × IsAllowed user_id out db
  unfolding use_api_key
  key-admits key caller out db h e = elim (Option-cases (out.validate_key key)) [
    | inl invalid ↦ absurd (cc (rw (invalid, use_api_key) at e))
    | inr (asked, valid) ↦ elim (Bool-cases (not (is_given out.jwt_secret) || out.signed)) [
      | inl signed ↦
          let (same, allowed) =
            limited-admits (or_else asked.sub "undefined") asked caller out db h
              (rw (valid, use_api_key, signed) at e) in
          (
            valid ∙ ap (λ c. some c) same,
            or_else asked.sub "undefined",
            subst (λ c. IsKeyId c (or_else asked.sub "undefined")) same (key_id asked),
            allowed,
          )
      | inr unsigned ↦ absurd (cc (rw (valid, use_api_key, unsigned) at e))
    ]
  ]

  token-admits :
      (token : String) (caller : Caller) (out : Outside Db) (db : Db) (h : Option RateHeaders)
      → (use_token R token out db).1 ≡ next (some caller) h
      → (is_given out.jwt_secret ≡ true)
        × (out.verify token (or_else out.jwt_secret "") ≡ some caller)
        × (user_id : String) × IsTokenId caller user_id
        × IsAllowed user_id out db
  unfolding use_token
  token-admits token caller out db h e = elim (Bool-cases (is_given out.jwt_secret)) [
    | inr missing ↦ absurd (cc (rw missing at e))
    | inl given ↦ elim (Option-cases (out.verify token (or_else out.jwt_secret ""))) [
      | inl invalid ↦ absurd (cc (rw (given, invalid) at e))
      | inr (asked, valid) ↦
          let (same, allowed) =
            limited-admits (first_given asked.sub asked.id) asked caller out db h
              (rw (given, valid) at e) in
          (
            given,
            valid ∙ ap (λ c. some c) same,
            first_given asked.sub asked.id,
            subst (λ c. IsTokenId c (first_given asked.sub asked.id)) same (token_id asked),
            allowed,
          )
    ]
  ]

  -- A request that the middleware passes on with a caller is authentic: its API key is one that the
  -- auth service gives this caller for, or its bearer token verifies with the secret as this caller;
  -- and the sliding window of this caller was asked for it and allowed it: that of the `sub`, for a
  -- token without one that of the `id`, and without both the one that such callers share.
  pub use_middleware-admits :
      (req : Request) (out : Outside Db) (db : Db) (caller : Caller) (h : Option RateHeaders)
      → (use_middleware R req out db).1 ≡ next (some caller) h
      → (user_id : String) × IsAuthentic req out caller user_id × IsAllowed user_id out db
  unfolding use_middleware
  use_middleware-admits req out db caller h e = elim (Bool-cases (str_eq req.method "OPTIONS")) [
    | inl options ↦ absurd (cc (rw options at e))
    | inr other ↦ elim (Bool-cases (is_given req.api_key)) [
      | inl keyed ↦
          let (valid, user_id, its, allowed) =
            key-admits (or_else req.api_key "") caller out db h (rw (other, keyed) at e) in
          (user_id, inl (or_else req.api_key "", given-some req.api_key keyed, valid, its), allowed)
      | inr unkeyed ↦ elim (Option-cases (bearer_token req.authorization)) [
        | inl missing ↦ absurd (cc (rw (other, unkeyed, missing) at e))
        | inr (token, read) ↦
            let (given, valid, user_id, its, allowed) =
              token-admits token caller out db h (rw (other, unkeyed, read) at e) in
            let secret = or_else out.jwt_secret "" in
            (
              user_id,
              inr (token, secret, read, given-some out.jwt_secret given, valid, its),
              allowed,
            )
      ]
    ]
  ]
