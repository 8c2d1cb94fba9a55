-- ===== src/Auth/Users.antt =====
-- users/user.entity.ts and users/users.service.ts: the table of users.
-- The table is a list in insertion order; the database chooses the id of a new row, an argument
-- here, and the times of creation and update, which no operation reads.
pub mod Linking
mod Tests
use edge_sphere_self_hosted.Prelude.{
  ℕ, List, [], ◌∷◌, ◌++◌, map, Bool, true, false, Option, none, some, String, str_eq, if◌then◌else◌,
  find,
}

-- A nullable column is an option.
pub record UserEntity : Type 0 where
  pub id : String
  pub email : String
  pub password_hash : Option String
  pub role : String
  pub display_name : Option String
  pub avatar : Option String
  pub provider : Option String
  pub provider_id : Option String
  pub email_verified : Bool
  pub is_active : Bool
  pub last_login_at : Option ℕ
  pub last_login_ip : Option String

abbrev pub has_email : String → UserEntity → Bool
has_email email u = str_eq u.email email

abbrev pub has_id : String → UserEntity → Bool
has_id id u = str_eq u.id id

unfoldable pub find_by_email : String → List UserEntity → Option UserEntity
find_by_email email users = find (has_email email) users

unfoldable pub find_by_id : String → List UserEntity → Option UserEntity
find_by_id id users = find (has_id id) users

-- `create` with the column defaults.
unfoldable pub new_user : (id email : String) (password_hash : Option String) → UserEntity
new_user id email password_hash = record {
  id = id;
  email = email;
  password_hash = password_hash;
  role = "user";
  display_name = none;
  avatar = none;
  provider = some "local";
  provider_id = none;
  email_verified = false;
  is_active = true;
  last_login_at = none;
  last_login_ip = none;
}

-- `save` of a row that the table does not have.
unfoldable pub save_new : UserEntity → List UserEntity → List UserEntity
save_new u users = users ++ u ∷ []

-- `save` of a row that was read from the table.
unfoldable pub save_user : UserEntity → List UserEntity → List UserEntity
save_user u [] = []
save_user u (v ∷ users) = (if has_id u.id v then u else v) ∷ save_user u users

-- `a || b` on nullable texts.
unfoldable pub or_text : Option String → Option String → Option String
or_text none b = b
or_text (some t) b = if str_eq t "" then b else some t

-- Whether a nullable text is falsy.
unfoldable pub is_missing : Option String → Bool
is_missing none = true
is_missing (some t) = str_eq t ""

unfoldable pub oauth_user :
    (id email : String) (display_name avatar : Option String) (provider provider_id : String)
    → UserEntity
oauth_user id email display_name avatar provider provider_id = record (new_user id email none) {
  display_name = display_name;
  avatar = avatar;
  provider = some provider;
  provider_id = some provider_id;
  email_verified = true;
}

unfoldable pub link_user :
    UserEntity → (display_name avatar : Option String) (provider provider_id : String) → UserEntity
link_user u display_name avatar provider provider_id = record u {
  provider = some provider;
  provider_id = some provider_id;
  display_name = or_text u.display_name display_name;
  avatar = or_text u.avatar avatar;
  email_verified = true;
}

-- The users after the call, and the user that it returns.
unfoldable pub find_or_create_by_oauth :
    (new_id email : String) (display_name avatar : Option String) (provider provider_id : String)
    → List UserEntity
    → List UserEntity × UserEntity
find_or_create_by_oauth new_id email display_name avatar provider provider_id users =
    elim (find_by_email email users) [
      | none ↦
          let created = oauth_user new_id email display_name avatar provider provider_id in
          (save_new created users, created)
      | some u ↦
          let linked = link_user u display_name avatar provider provider_id in
          if is_missing u.provider_id then (save_user linked users, linked) else (users, u)
    ]

-- `update(id, { lastLoginAt, lastLoginIp })`: a missing row is left missing.
unfoldable pub update_last_login : (id ip : String) (now : ℕ) → List UserEntity → List UserEntity
update_last_login id ip now [] = []
update_last_login id ip now (u ∷ users) =
    (if has_id id u then record u { last_login_at = some now; last_login_ip = some ip } else u)
    ∷ update_last_login id ip now users
