-- ===== src/Gateway/RateLimit/Bucket.antt =====
-- The token bucket never holds more than its capacity, and admits no more than the capacity and
-- what the rate has brought.
use native.Mathlib.Nat.{mul-add, mul_comm, mul-le-mul_left}
use edge_sphere_self_hosted.Prelude.{
  ℕ, ◌+◌, ◌-◌, ◌*◌, ◌≤◌, ◌≡◌, refl, sym, ap, ◌∙◌, Bool, Option, none, some, String, eq_refl,
  if◌then◌else◌, leb, arith, Bool-cases, inl, inr,
}
use edge_sphere_self_hosted.Redis.{Redis}
use edge_sphere_self_hosted.Gateway.RateLimit.{
  bucket_key, refilled, take_token, write_bucket, token_bucket, racing_calls,
}

-- 1 for an admitted call, 0 for a refused one.
abbrev pub admitted : Bool → ℕ
admitted b = if b then 1 else 0

-- What `calls` admitted calls and a bucket with `tokens` thousandths come from.
abbrev IsPaid : (capacity rate first calls last tokens : ℕ) → Type 0
IsPaid capacity rate first calls last tokens =
    (first ≤ last)
    × (tokens ≤ 1000 * capacity)
    × (1000 * calls + tokens ≤ 1000 * capacity + rate * (last - first))

-- A missing hash stands for a full bucket.
abbrev Accounts : (capacity rate first calls last : ℕ) → Option (ℕ × ℕ) → Type 0
Accounts capacity rate first calls last none =
    IsPaid capacity rate first calls last (1000 * capacity)
Accounts capacity rate first calls last (some (tokens, refill)) =
    (refill ≤ last) × IsPaid capacity rate first calls refill tokens

elapsed-split :
    (rate first last now : ℕ)
    → first ≤ last
    → last ≤ now
    → rate * (now - first) ≡ rate * (last - first) + (now - last) * rate
elapsed-split rate first last now h k =
    ap (λ d. rate * d) (omega arith)
    ∙ mul-add rate (last - first) (now - last)
    ∙ ap (λ d. rate * (last - first) + d) (mul_comm rate (now - last))

refilled-IsPaid :
    (capacity rate first calls last now : ℕ) (stored : Option (ℕ × ℕ))
    → Accounts capacity rate first calls last stored
    → last ≤ now
    → IsPaid capacity rate first calls now (refilled capacity rate now stored)
unfolding refilled
refilled-IsPaid capacity rate first calls last now none (begun, cap, paid) le =
    (omega arith, cap, omega (arith, elapsed-split rate first last now begun le))
refilled-IsPaid capacity rate first calls last now (some (tokens, refill)) (old, (begun, cap, paid))
      le =
    let since : refill ≤ now = omega arith in
    (omega arith, omega arith, omega (arith, elapsed-split rate first refill now begun since))

take_token-Accounts :
    (capacity rate first calls last now : ℕ) (stored : Option (ℕ × ℕ))
    → Accounts capacity rate first calls last stored
    → last ≤ now
    → let taken = take_token capacity rate now stored in
      Accounts capacity rate first (admitted taken.0 + calls) now (some taken.1)
unfolding take_token
take_token-Accounts capacity rate first calls last now stored h le =
    let tokens = refilled capacity rate now stored in
    let (begun, cap, paid) = refilled-IsPaid capacity rate first calls last now stored h le in
    elim (Bool-cases (leb 1000 tokens)) [
      | inl enough ↦
          let one : 1000 ≤ tokens = ground arith in
          rw enough (omega arith, (begun, omega arith, omega arith))
      | inr short ↦ rw short (omega arith, (begun, cap, omega arith))
    ]

take_token-now :
    (capacity rate now : ℕ) (stored : Option (ℕ × ℕ))
    → (take_token capacity rate now stored).1.1 ≡ now
unfolding take_token
take_token-now capacity rate now stored = ground arith

module _ {V : Type 0} (R : Redis V) (identifier : String) (capacity rate : ℕ) where
  open R use {Db, hmget, hmset, expire, lapse, hmget-hmset, hmget-expire, hmget-lapse}

  -- The calls for one identifier from `first` on: how many were admitted, the time of the last step
  -- and the database after it. Others write elsewhere, and Redis drops the key after 60 seconds.
  pub data History (first : ℕ) : ℕ → ℕ → Db → Type 0 where
    start : (db : Db) → hmget (bucket_key identifier) db ≡ none → History first 0 first db
    call :
        (now : ℕ) {calls last : ℕ} {db : Db}
        → History first calls last db
        → last ≤ now
        → History first
            (admitted (token_bucket R identifier capacity rate now db).verdict.allowed + calls)
            now
            (token_bucket R identifier capacity rate now db).db
    elsewhere :
        (after : Db) {calls last : ℕ} {db : Db}
        → History first calls last db
        → hmget (bucket_key identifier) after ≡ hmget (bucket_key identifier) db
        → History first calls last after
    expired :
        (now : ℕ) {calls last : ℕ} {db : Db}
        → History first calls last db
        → last + 60000 ≤ now
        → History first calls now (lapse (bucket_key identifier) db)

  stored_after :
      (fields : ℕ × ℕ) (db : Db)
      → hmget (bucket_key identifier) (write_bucket R (bucket_key identifier) fields db)
        ≡ some fields
  unfolding write_bucket
  stored_after fields db =
      let key = bucket_key identifier in
      hmget-expire key key 60 (hmset key fields db)
      ∙ hmget-hmset key key fields db
      ∙ ground (arith, eq_refl key)

  token_bucket-writes :
      (now : ℕ) (db : Db)
      → let taken = take_token capacity rate now (hmget (bucket_key identifier) db) in
        let outcome = token_bucket R identifier capacity rate now db in
        (outcome.verdict.allowed ≡ taken.0)
        × (hmget (bucket_key identifier) outcome.db ≡ some taken.1)
  unfolding token_bucket
  token_bucket-writes now db =
      let taken = take_token capacity rate now (hmget (bucket_key identifier) db) in
      (refl, stored_after taken.1 db)

  call-Accounts :
      (first calls last now : ℕ) (db : Db)
      → Accounts capacity rate first calls last (hmget (bucket_key identifier) db)
      → last ≤ now
      → let outcome = token_bucket R identifier capacity rate now db in
        Accounts capacity rate first
          (admitted outcome.verdict.allowed + calls)
          now
          (hmget (bucket_key identifier) outcome.db)
  call-Accounts first calls last now db h le =
      let (allowed, written) = token_bucket-writes now db in
      let stored = hmget (bucket_key identifier) db in
      rw (allowed, written) (take_token-Accounts capacity rate first calls last now stored h le)

  -- What the bucket has when its key lapses is less than what the rate brings in that time.
  lapsed-Accounts :
      (first calls last now : ℕ) (stored : Option (ℕ × ℕ))
      → capacity ≤ 60 * rate
      → Accounts capacity rate first calls last stored
      → last + 60000 ≤ now
      → Accounts capacity rate first calls now none
  lapsed-Accounts first calls last now none fast (begun, cap, paid) gone =
      let le : last ≤ now = omega arith in
      (omega arith, cap, omega (arith, elapsed-split rate first last now begun le))
  lapsed-Accounts first calls last now (some (tokens, refill)) fast (old, (begun, cap, paid)) gone =
      let le : refill ≤ now = omega arith in
      let enough : rate * 60000 ≤ rate * (now - refill) = mul-le-mul_left rate (omega arith) in
      (
        omega arith,
        omega arith,
        omega (arith, elapsed-split rate first refill now begun le, mul_comm rate (now - refill)),
      )

  history-Accounts :
      {first calls last : ℕ} {db : Db}
      → capacity ≤ 60 * rate
      → History first calls last db
      → Accounts capacity rate first calls last (hmget (bucket_key identifier) db)
  history-Accounts {first} fast (start db fresh) = rw fresh (omega arith, omega arith, omega arith)
  history-Accounts {first} fast (call now {calls} {last} {db} h le) =
      call-Accounts first calls last now db (history-Accounts fast h) le
  history-Accounts fast (elsewhere after h same) = rw same (history-Accounts fast h)
  history-Accounts {first} fast (expired now {calls} {last} {db} h gone) =
      rw (hmget-lapse (bucket_key identifier) db) (
        lapsed-Accounts first calls last now (hmget (bucket_key identifier) db) fast
          (history-Accounts fast h) gone)

  -- If 60 seconds refill the bucket, then after any history of calls that starts with no hash, the
  -- calls admitted so far with the next one, and the tokens that `remaining` still promises, are
  -- within the capacity and what the rate has brought since the start; `remaining` is within the
  -- capacity.
  pub token_bucket-bound :
      {first calls last : ℕ} {db : Db}
      → capacity ≤ 60 * rate
      → History first calls last db
      → (now : ℕ) → last ≤ now
      → let outcome = token_bucket R identifier capacity rate now db in
        (1000 * (admitted outcome.verdict.allowed + calls) + 1000 * outcome.verdict.remaining
          ≤ 1000 * capacity + rate * (now - first))
        × (outcome.verdict.remaining ≤ capacity)
  unfolding token_bucket
  token_bucket-bound {first} {calls} {last} {db} fast h now le =
      let stored = hmget (bucket_key identifier) db in
      let (old, (begun, cap, paid)) =
        take_token-Accounts capacity rate first calls last now stored (history-Accounts fast h)
          le in
      let at_now = take_token-now capacity rate now stored in
      let within = ap (λ t. rate * (t - first)) at_now in (omega arith, omega arith)

  -- Two calls in one millisecond that both read the hash before either writes it are both answered
  -- as one call alone is, and leave the hash that one call alone leaves: the second token is not
  -- paid for.
  pub racing_calls_share_token :
      (now : ℕ) (db : Db)
      → let raced = racing_calls R identifier capacity rate now now db in
        let alone = token_bucket R identifier capacity rate now db in
        (raced.0 ≡ alone.verdict.allowed)
        × (raced.1 ≡ alone.verdict.allowed)
        × (hmget (bucket_key identifier) raced.2 ≡ hmget (bucket_key identifier) alone.db)
  unfolding token_bucket racing_calls
  racing_calls_share_token now db =
      let taken = take_token capacity rate now (hmget (bucket_key identifier) db) in
      (
        refl,
        refl,
        stored_after taken.1 (write_bucket R (bucket_key identifier) taken.1 db)
            ∙ sym (stored_after taken.1 db),
      )
