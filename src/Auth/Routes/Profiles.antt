-- ===== src/Auth/Routes/Profiles.antt =====
-- A user changes a profile and reads it again.
use edge_sphere_self_hosted.Prelude.{
  ◌≡◌, refl, sym, ap, ◌∙◌, List, [], ◌∷◌, Bool, true, false, Option, some, String, str_eq, eq_iff,
  find_sound, if◌then◌else◌, leb, Bool-cases, Option-cases, inl, inr,
}
use edge_sphere_self_hosted.Prelude.Texts.{text_length}
use edge_sphere_self_hosted.Redis.{Redis}
use edge_sphere_self_hosted.Auth.Users.{UserEntity, has_id, find_by_id, save_user}
use edge_sphere_self_hosted.Auth.Sessions.{
  Value, JwtPayload, Crypto, World, Result, ok, profile_of, get_profile, update_profile,
}
use edge_sphere_self_hosted.Auth.ApiKeys.{Registry}
use edge_sphere_self_hosted.Auth.Guards.{Claims, passes, auth_guard}
use edge_sphere_self_hosted.Auth.Routes.{
  Origin, profile_answer, bad_body, profile_request, update_request, needs_user, is_valid, world_of,
  with_world, handle, checked, admitted, serve,
}

-- Ids that are the id of a user are the same.
same_as : (x y id : String) → y ≡ id → str_eq x id ≡ str_eq x y
same_as x y id e = ap (str_eq x) (sym e)

find-saved :
    (u v : UserEntity) (id : String) (users : List UserEntity)
    → u.id ≡ id
    → find_by_id id users ≡ some v
    → find_by_id id (save_user u users) ≡ some u
unfolding find_by_id save_user
find-saved u v id [] same found = absurd (cc found)
find-saved u v id (w ∷ users) same found =
    let mine : str_eq u.id id ≡ true = (eq_iff u.id id).1 same in
    elim (Bool-cases (str_eq w.id u.id)) [
      | inl here ↦ rw (here, mine) refl
      | inr elsewhere ↦
          let other : str_eq w.id id ≡ false = same_as w.id u.id id same ∙ elsewhere in
          rw (elsewhere, other) (find-saved u v id users same (rw (other) at found))
    ]

find-saved_other :
    (u : UserEntity) (id : String) (users : List UserEntity)
    → str_eq u.id id ≡ false
    → find_by_id id (save_user u users) ≡ find_by_id id users
unfolding find_by_id save_user
find-saved_other u id [] apart = refl
find-saved_other u id (w ∷ users) apart = elim (Bool-cases (str_eq w.id u.id)) [
  | inl here ↦
      let other : str_eq w.id id ≡ false =
        ap (λ x. str_eq x id) ((eq_iff w.id u.id).0 here) ∙ apart in
      rw (here, apart, other) (find-saved_other u id users apart)
  | inr elsewhere ↦
      rw (elsewhere)
        (ap (λ rest. if str_eq w.id id then some w else rest) (find-saved_other u id users apart))
]

find_id_sound :
    (id : String) (users : List UserEntity) (u : UserEntity)
    → find_by_id id users ≡ some u
    → u.id ≡ id
unfolding find_by_id
find_id_sound id users u h = (eq_iff u.id id).0 (find_sound (has_id id) users u h)

-- What an update that succeeds leaves: the new name in the table, and the rest of the user.
module _ {Db : Type 0} (user_id name : String) (w : World Db) where
  abbrev renamed : World Db
  renamed = (update_profile user_id (some name) w).0

  update_profile-found :
      (u : UserEntity)
      → (update_profile user_id (some name) w).1 ≡ ok u
      → (v : UserEntity) × (find_by_id user_id w.users ≡ some v)
        × (profile_of (record v { display_name = some name }) ≡ u)
        × (renamed.users ≡ save_user (record v { display_name = some name }) w.users)
  unfolding update_profile
  update_profile-found u e = elim (Option-cases (find_by_id user_id w.users)) [
    | inl absent ↦ absurd (cc (rw (absent, update_profile) at e))
    | inr (v, found) ↦
        let answered = rw (found, update_profile) at e in
        (v, found, cc, rw (renamed, update_profile, found) refl)
  ]

  update-get_profile :
      (u : UserEntity)
      → (update_profile user_id (some name) w).1 ≡ ok u
      → (get_profile user_id renamed ≡ ok u) × (u.display_name ≡ some name)
  unfolding get_profile profile_of
  update-get_profile u e =
      let (v, found, answer, table) = update_profile-found u e in
      let new : UserEntity = record v { display_name = some name } in
      let there : find_by_id user_id renamed.users ≡ some new =
        ap (find_by_id user_id) table
        ∙ find-saved new v user_id w.users (find_id_sound user_id w.users v found) found in
      (rw (get_profile, there) (ap ok answer), sym (ap (λ x. x.display_name) answer))

  update_profile-keeps :
      (u : UserEntity) (other : String)
      → (update_profile user_id (some name) w).1 ≡ ok u
      → str_eq user_id other ≡ false
      → (find_by_id other renamed.users ≡ find_by_id other w.users) × (renamed.db ≡ w.db)
  unfolding update_profile
  update_profile-keeps u other e apart =
      let (v, found, answer, table) = update_profile-found u e in
      let new : UserEntity = record v { display_name = some name } in
      let same : str_eq v.id other ≡ false =
        ap (λ x. str_eq x other) (find_id_sound user_id w.users v found) ∙ apart in
      (
        ap (find_by_id other) table ∙ find-saved_other new other w.users same,
        rw (renamed, update_profile, found) refl,
      )

module _ (C : Crypto) (jwt_expires_in : String) (R : Redis Value) (is_email : String → Bool)
    (verify : (secret token : String) → Option Claims)
    (extract : (header : Option String) → Option String) (setting : Option String) where
  open R use {Db}

  update-served :
      (origin : Origin) (user : JwtPayload) (name : String) (r : Registry Db)
      → auth_guard verify extract setting origin.header ≡ passes user
      → leb (text_length name) 100 ≡ true
      → let done = update_profile user.sub (some name) (world_of r) in
        serve C jwt_expires_in R is_email verify extract setting origin
          (update_request (some name))
          r
        ≡ (with_world done.0 r, profile_answer done.1)
  unfolding serve admitted checked handle needs_user is_valid
  update-served origin user name r admits short = rw (admits, short) refl

  update-too_long :
      (origin : Origin) (user : JwtPayload) (name : String) (r : Registry Db)
      → auth_guard verify extract setting origin.header ≡ passes user
      → leb (text_length name) 100 ≡ false
      → serve C jwt_expires_in R is_email verify extract setting origin
          (update_request (some name))
          r
        ≡ (r, bad_body)
  unfolding serve admitted checked handle needs_user is_valid
  update-too_long origin user name r admits long = rw (admits, long) refl

  profile-served :
      (origin : Origin) (user : JwtPayload) (r : Registry Db)
      → auth_guard verify extract setting origin.header ≡ passes user
      → serve C jwt_expires_in R is_email verify extract setting origin profile_request r
        ≡ (r, profile_answer (get_profile user.sub (world_of r)))
  unfolding serve admitted checked handle needs_user is_valid
  profile-served origin user r admits = rw (admits) refl

  profile_answer-ok :
      (x : Result UserEntity) (u : UserEntity) → profile_answer x ≡ profile_answer (ok u) → x ≡ ok u
  profile_answer-ok x u e = cc

  -- When a request of a user for a new display name is answered with a profile, the profile has the
  -- name, a later request of the same user for the profile is answered with it and changes nothing,
  -- and every other user, the API keys and the database of sessions are as they were.
  pub update_request-shows :
      (origin later : Origin) (user : JwtPayload) (name other : String) (r : Registry Db)
      (u : UserEntity)
      → auth_guard verify extract setting origin.header ≡ passes user
      → auth_guard verify extract setting later.header ≡ passes user
      → str_eq user.sub other ≡ false
      → let served = serve C jwt_expires_in R is_email verify extract setting in
        (served origin (update_request (some name)) r).1 ≡ profile_answer (ok u)
        → let served = serve C jwt_expires_in R is_email verify extract setting in
          let after = (served origin (update_request (some name)) r).0 in
          (u.display_name ≡ some name)
          × (served later profile_request after ≡ (after, profile_answer (ok u)))
          × (find_by_id other after.users ≡ find_by_id other r.users)
          × (after.api_keys ≡ r.api_keys)
          × (after.db ≡ r.db)
  unfolding world_of with_world
  update_request-shows origin later user name other r u admits admits_later apart answered =
      elim (Bool-cases (leb (text_length name) 100)) [
        | inr long ↦
            absurd (cc (ap (λ x. x.1) (update-too_long origin user name r admits long), answered))
        | inl short ↦
            let w = world_of r in
            let is = update-served origin user name r admits short in
            let done =
              profile_answer-ok (update_profile user.sub (some name) w).1 u
                (sym (ap (λ x. x.1) is) ∙ answered) in
            let shown = update-get_profile user.sub name w u done in
            let kept = update_profile-keeps user.sub name w u other done apart in
            let after = with_world (renamed user.sub name w) r in
            let read = profile-served later user after admits_later in
            rw (is) (shown.1, read ∙ rw (shown.0) refl, kept.0, refl, kept.1)
      ]
