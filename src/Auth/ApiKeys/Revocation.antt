-- ===== src/Auth/ApiKeys/Revocation.antt =====
-- A created key is valid, and what a revocation makes of the texts that were valid as the key.
use Prim.Native.String.{◌++◌ as str_append}
use edge_sphere_self_hosted.Prelude.{
  ℕ, ◌≡◌, ◌≢◌, refl, sym, ap, ◌∙◌, List, [], ◌∷◌, Bool, true, false, not, ◌||◌, none, some, String,
  str_eq, eq_iff, eq_refl, if◌then◌else◌, keep, any, find, false, arith, Bool-cases, Option-cases,
  inl, inr,
}
use edge_sphere_self_hosted.Prelude.Texts.{starts_with, starts_with-append}
use edge_sphere_self_hosted.Redis.{Redis}
use edge_sphere_self_hosted.Auth.Users.{UserEntity}
use edge_sphere_self_hosted.Auth.Sessions.{Value, token_text, key_owner, Crypto}
use edge_sphere_self_hosted.Auth.ApiKeys.{
  ApiKeyEntity, Registry, Caller, ok, lookup_ttl, lookup_prefix, lookup_key, raw_key_of, is_key_of,
  is_active_user, create_api_key, names_key, del_all, lookup_keys_of, revoke_api_key,
  validate_api_key, validate_owner, validate_value,
}

any-keep :
    (q : String → Bool) (es : List String) (k : String)
    → any (λ j. str_eq j k) es ≡ true
    → q k ≡ true
    → any (λ j. str_eq j k) (keep q es) ≡ true
any-keep q [] k h t = h
any-keep q (e ∷ es) k h t = elim (Bool-cases (str_eq e k)) [
  | inl here ↦ let same : e ≡ k = ground (arith, eq_iff e k) in rw (ap q same ∙ t) (ground arith)
  | inr elsewhere ↦ let later = any-keep q es k (ground arith) t in ground arith
]

any-keep_none :
    (q : String → Bool) (es : List String) (k : String)
    → q k ≡ false
    → any (λ j. str_eq j k) (keep q es) ≡ false
any-keep_none q [] k h = refl
any-keep_none q (e ∷ es) k h = elim (Bool-cases (str_eq e k)) [
  | inl here ↦
      let same : e ≡ k = ground (arith, eq_iff e k) in
      let out : q e ≡ false = ap q same ∙ h in rw out (any-keep_none q es k h)
  | inr elsewhere ↦ let later = any-keep_none q es k h in ground arith
]

any-keep_less :
    (q : String → Bool) (es : List String) (k : String)
    → any (λ j. str_eq j k) es ≡ false
    → any (λ j. str_eq j k) (keep q es) ≡ false
any-keep_less q [] k h = refl
any-keep_less q (e ∷ es) k h = ground (arith, any-keep_less q es k)

module _ (R : Redis Value) where
  open R use {Db, get, set, del, scan, expire, get-set, get-del, get-scan, get-expire}

  del_all-get :
      (ks : List String) (j : String) (db : Db)
      → get j (del_all R ks db) ≡ (if any (λ k. str_eq k j) ks then none else get j db)
  unfolding del_all
  del_all-get [] j db = refl
  del_all-get (k ∷ ks) j db = ground (arith, del_all-get ks j (del k db), get-del k j db)

  names_key-owner :
      (key_id user_id key : String) (db : Db)
      → get key db ≡ some (key_owner user_id key_id)
      → names_key R key_id db key ≡ true
  unfolding names_key
  names_key-owner key_id user_id key db h = rw (h, names_key) (eq_refl key_id)

  -- The values of an API key whose GETs are answered, under whatever hash, are all found.
  lookup_keys_of_complete :
      (answered : String → Bool) (key_id user_id sha256 : String) (db : Db)
      → answered (lookup_key sha256) ≡ true
      → get (lookup_key sha256) db ≡ some (key_owner user_id key_id)
      → any (λ j. str_eq j (lookup_key sha256)) (lookup_keys_of R answered key_id db) ≡ true
  unfolding lookup_keys_of lookup_key
  lookup_keys_of_complete answered key_id user_id sha256 db seen h =
      let key = lookup_key sha256 in
      let listed = keep (starts_with lookup_prefix) (scan db) in
      any-keep (names_key R key_id db) (keep answered listed) key
        (any-keep answered listed key
          (any-keep (starts_with lookup_prefix) (scan db) key
            (get-scan key (key_owner user_id key_id) db h)
            (starts_with-append lookup_prefix sha256))
          seen)
        (names_key-owner key_id user_id key db h)

  -- A key whose GET is not answered in time is not deleted.
  lookup_keys_of_missed :
      (answered : String → Bool) (key_id key : String) (db : Db)
      → answered key ≡ false
      → any (λ j. str_eq j key) (lookup_keys_of R answered key_id db) ≡ false
  unfolding lookup_keys_of
  lookup_keys_of_missed answered key_id key db unseen =
      any-keep_less (names_key R key_id db)
        (keep answered (keep (starts_with lookup_prefix) (scan db))) key
        (any-keep_none answered (keep (starts_with lookup_prefix) (scan db)) key unseen)

  -- After the deletion no value under such a hash names the API key.
  del_all-forgets :
      (answered : String → Bool) (key_id user_id sha256 : String) (db : Db)
      → answered (lookup_key sha256) ≡ true
      → get (lookup_key sha256) (del_all R (lookup_keys_of R answered key_id db) db)
        ≢ some (key_owner user_id key_id)
  del_all-forgets answered key_id user_id sha256 db seen held =
      let key = lookup_key sha256 in
      let left = del_all-get (lookup_keys_of R answered key_id db) key db in
      elim (Bool-cases (any (λ j. str_eq j key) (lookup_keys_of R answered key_id db))) [
        | inl found ↦ absurd (cc (sym held ∙ rw found at left))
        | inr missed ↦
            let before : get key db ≡ some (key_owner user_id key_id) =
              sym (rw missed at left) ∙ held in
            let found = lookup_keys_of_complete answered key_id user_id sha256 db seen before in
            absurd (ground arith)
      ]

raw_key-formed :
    (hex : String)
    → (str_eq (raw_key_of hex) "" || not (starts_with "esk_" (raw_key_of hex))) ≡ false
unfolding raw_key_of
raw_key-formed hex =
    let marked = starts_with-append "esk_" hex in
    elim (Bool-cases (str_eq (str_append "esk_" hex) "")) [
      | inl blank ↦
          let same : str_append "esk_" hex ≡ "" =
            ground (arith, eq_iff (str_append "esk_" hex) "") in
          let unmarked : starts_with "esk_" (str_append "esk_" hex) ≡ false =
            ap (starts_with "esk_") same in
          absurd (ground arith)
      | inr given ↦ ground arith
    ]

owner-key_id :
    {Db : Type 0} (user_id key_id : String) (now : ℕ) (r : Registry Db) (c : Caller)
    → (validate_owner user_id key_id now r).1 ≡ ok c
    → key_id ≡ c.key_id
unfolding validate_owner
owner-key_id user_id key_id now r c h =
    elim (Option-cases (find (is_active_user user_id) r.users)) [
      | inl gone ↦ absurd (cc (rw (gone, validate_owner) at h))
      | inr (user, found) ↦ let answered = rw (found, validate_owner) at h in cc
    ]

value-owner :
    {Db : Type 0} (v : Value) (now : ℕ) (r : Registry Db) (c : Caller)
    → (validate_value v now r).1 ≡ ok c
    → (user_id : String) × (v ≡ key_owner user_id c.key_id)
unfolding validate_value
value-owner (token_text t) now r c h = absurd cc
value-owner (key_owner user_id key_id) now r c h =
    (user_id, ap (key_owner user_id) (owner-key_id user_id key_id now r c h))

owner-same :
    {Db : Type 0} (user_id key_id : String) (now : ℕ) (before after : Registry Db)
    → after.users ≡ before.users
    → (validate_owner user_id key_id now after).1 ≡ (validate_owner user_id key_id now before).1
unfolding validate_owner
owner-same user_id key_id now before after users =
    let same = ap (find (is_active_user user_id)) users in
    elim (Option-cases (find (is_active_user user_id) before.users)) [
      | inl gone ↦ rw (validate_owner, same, gone) refl
      | inr (user, found) ↦ rw (validate_owner, same, found) refl
    ]

value-same :
    {Db : Type 0} (v : Value) (now : ℕ) (before after : Registry Db)
    → after.users ≡ before.users
    → (validate_value v now after).1 ≡ (validate_value v now before).1
unfolding validate_value
value-same (token_text t) now before after users = refl
value-same (key_owner user_id key_id) now before after users =
    owner-same user_id key_id now before after users

module _ (C : Crypto) (R : Redis Value) where
  open R use {Db, get, set, del, expire, get-set, get-del, get-expire}

  -- Only a value that names the API key makes a text valid for it.
  validate-stored :
      (raw_key : String) (now : ℕ) (r : Registry Db) (c : Caller)
      → (validate_api_key C R raw_key now r).1 ≡ ok c
      → (user_id : String) × (get (lookup_key (Crypto.sha256 C raw_key)) r.db
          ≡ some (key_owner user_id c.key_id))
  unfolding validate_api_key
  validate-stored raw_key now r c h =
      elim (Bool-cases (str_eq raw_key "" || not (starts_with "esk_" raw_key))) [
        | inl ill_formed ↦ absurd (cc (rw ill_formed at h))
        | inr formed ↦ elim (Option-cases (get (lookup_key (Crypto.sha256 C raw_key)) r.db)) [
          | inl nothing ↦ absurd (cc (rw (formed, nothing) at h))
          | inr (v, held) ↦
              let (owner, value) = value-owner v now r c (rw (formed, held) at h) in
              (owner, held ∙ ap (λ x. some x) value)
        ]
      ]

  revoke-db :
      (answered : String → Bool) (user_id key_id : String) (r : Registry Db) (key : ApiKeyEntity)
      → find (is_key_of key_id user_id) r.api_keys ≡ some key
      → let hashless = del (str_append "apikey:" key.key_hash) r.db in
        let revoked = revoke_api_key C R answered user_id key_id r in
        (revoked.1 ≡ ok tt)
        × (revoked.0.db ≡ del_all R (lookup_keys_of R answered key_id hashless) hashless)
        × (revoked.0.users ≡ r.users)
  unfolding revoke_api_key
  revoke-db answered user_id key_id r key found = rw (found, revoke_api_key) (refl, refl, refl)

  -- What a text is valid as depends on its value in Redis and on the users alone.
  validate-same :
      (raw_key : String) (now : ℕ) (before after : Registry Db)
      → let key = lookup_key (Crypto.sha256 C raw_key) in
        get key after.db ≡ get key before.db
        → after.users ≡ before.users
        → (validate_api_key C R raw_key now after).1 ≡ (validate_api_key C R raw_key now before).1
  unfolding validate_api_key
  validate-same raw_key now before after held users =
      elim (Bool-cases (str_eq raw_key "" || not (starts_with "esk_" raw_key))) [
        | inl ill_formed ↦ rw ill_formed refl
        | inr formed ↦ elim (Option-cases (get (lookup_key (Crypto.sha256 C raw_key)) before.db)) [
          | inl nothing ↦ rw (formed, held, nothing) refl
          | inr (v, found) ↦ rw (formed, held, found) (value-same v now before after users)
        ]
      ]

  -- When a user revokes a key of theirs, the answer is a success, and what became of a text depends
  -- on its GET: where the GET of its value was answered when the scan ended, the text is not valid
  -- as that key any more; where it was not, and the value is not the one under the hash of bcrypt,
  -- the text is valid as before.
  pub revoke-validate :
      (answered : String → Bool) (user_id key_id raw_key : String) (now : ℕ) (r : Registry Db)
      (key : ApiKeyEntity)
      → find (is_key_of key_id user_id) r.api_keys ≡ some key
      → str_eq (str_append "apikey:" key.key_hash) (lookup_key (Crypto.sha256 C raw_key)) ≡ false
      → let value = lookup_key (Crypto.sha256 C raw_key) in
        let revoked = revoke_api_key C R answered user_id key_id r in
        let valid = (validate_api_key C R raw_key now revoked.0).1 in
        (revoked.1 ≡ ok tt)
        × (answered value ≡ true → (c : Caller) → valid ≡ ok c → c.key_id ≢ key_id)
        × (answered value ≡ false → valid ≡ (validate_api_key C R raw_key now r).1)
  revoke-validate answered user_id key_id raw_key now r key found apart =
      let after = (revoke_api_key C R answered user_id key_id r).0 in
      let (done, left, users) = revoke-db answered user_id key_id r key found in
      let sha256 = Crypto.sha256 C raw_key in
      let hashless = del (str_append "apikey:" key.key_hash) r.db in
      (
        done,
        λ seen c valid same.
            let (owner, held) = validate-stored raw_key now after c valid in
            del_all-forgets R answered key_id owner sha256 hashless seen (
              ap (get (lookup_key sha256)) (sym left)
              ∙ held
              ∙ ap (λ k. some (key_owner owner k)) same),
        λ unseen.
            let missed =
              lookup_keys_of_missed R answered key_id (lookup_key sha256) hashless unseen in
            let kept =
              del_all-get R (lookup_keys_of R answered key_id hashless) (lookup_key sha256)
                hashless in
            let other : get (lookup_key sha256) hashless ≡ get (lookup_key sha256) r.db =
              get-del (str_append "apikey:" key.key_hash) (lookup_key sha256) r.db
              ∙ rw apart refl in
            validate-same raw_key now r after
              (ap (get (lookup_key sha256)) left ∙ rw missed at kept ∙ other) users,
      )

  -- A key that a user of the table who is active created is valid, and stands for the user.
  pub create-validate :
      (user_id name hex salt id : String) (now later : ℕ) (r : Registry Db) (user : UserEntity)
      → find (is_active_user user_id) r.users ≡ some user
      → let created = create_api_key C R user_id name hex salt id now r in
        let validated = validate_api_key C R created.1.key later created.0 in
        validated.1
        ≡ ok (record { sub = user.id; email = user.email; role = user.role; key_id = id })
  unfolding create_api_key validate_api_key validate_value validate_owner
  create-validate user_id name hex salt id now later r user active =
      let raw_key = raw_key_of hex in
      let key = lookup_key (Crypto.sha256 C raw_key) in
      let made = set key (key_owner user_id id) r.db in
      let stored : get key (expire key lookup_ttl made) ≡ some (key_owner user_id id) =
        get-expire key key lookup_ttl made
        ∙ get-set key key (key_owner user_id id) r.db
        ∙ ground (arith, eq_refl key) in
      rw (raw_key-formed hex, stored, active) refl
