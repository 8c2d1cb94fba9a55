-- ===== src/Auth/ApiKeys/Tests.antt =====
-- Runs on API keys, with the identity for a hash.
use edge_sphere_self_hosted.Prelude.{
  ◌≡◌, ◌≢◌, refl, [], ◌∷◌, Bool, true, false, none, some, String, str_eq, eq_refl, find,
}
use edge_sphere_self_hosted.Redis.{Redis}
use edge_sphere_self_hosted.Redis.Memory.{memory, empty}
use edge_sphere_self_hosted.Auth.Users.{UserEntity}
use edge_sphere_self_hosted.Auth.Sessions.{Value, key_owner, Crypto}
use edge_sphere_self_hosted.Auth.ApiKeys.{
  ApiKeyEntity, Registry, Caller, ok, lookup_key, is_active_user, create_api_key, revoke_api_key,
  validate_api_key, validate_value, validate_owner, lookup_prefix, lookup_keys_of, names_key,
  del_all,
}
use edge_sphere_self_hosted.Auth.ApiKeys.Revocation.{create-validate, revoke-validate}

abbrev plain : Crypto
plain = record {
  hash = λ p salt rounds. p;
  compare = str_eq;
  compare-hash = λ p salt rounds. eq_refl p;
  sha256 = λ t. t;
  to_base64 = λ t. t;
  from_base64 = λ t. t;
  from-to_base64 = λ t. refl;
  sign = λ p. p.sub;
}

abbrev ann : UserEntity
ann = record {
  id = "ann";
  email = "ann@home";
  password_hash = none;
  role = "user";
  display_name = none;
  avatar = none;
  provider = none;
  provider_id = none;
  email_verified = true;
  is_active = true;
  last_login_at = none;
  last_login_ip = none;
}

abbrev row : String → ApiKeyEntity
row id = record {
  id = id;
  user_id = "ann";
  name = "ci";
  key_hash = "h";
  key_prefix = "esk_1";
  created_at = 1;
  last_used_at = none;
  expires_at = none;
}

-- Two keys of Ann's, 1 and 2.
abbrev registry : Registry (Redis.Db (memory Value))
registry = record {
  db =
      Redis.set (memory Value) "apikey:lookup:esk_2" (key_owner "ann" "2")
        (Redis.set (memory Value) "apikey:lookup:esk_1" (key_owner "ann" "1") empty);
  users = ann ∷ [];
  api_keys = row "2" ∷ row "1" ∷ [];
}

ann_is_active : find (is_active_user "ann") registry.users ≡ some ann
unfolding is_active_user
ann_is_active = refl

create-validate_example :
    let created = create_api_key plain (memory Value) "ann" "ci" "3" "salt" "3" 5 registry in
    (validate_api_key plain (memory Value) created.1.key 6 created.0).1
    ≡ ok (record { sub = "ann"; email = "ann@home"; role = "user"; key_id = "3" })
create-validate_example =
    create-validate plain (memory Value) "ann" "ci" "3" "salt" "3" 5 6 registry ann ann_is_active

abbrev caller : Caller
caller = record { sub = "ann"; email = "ann@home"; role = "user"; key_id = "2" }

-- The GETs are on their way when the scan ends.
abbrev none_answered : String → Bool
none_answered key = false

still_valid :
    (validate_api_key plain
      (memory Value)
      "esk_2"
      6
      (revoke_api_key plain (memory Value) none_answered "ann" "2" registry).0).1
    ≡ ok caller
unfolding validate_api_key revoke_api_key lookup_key lookup_prefix validate_value validate_owner
    is_active_user lookup_keys_of names_key del_all
still_valid = refl

hash_apart : str_eq "apikey:h" (lookup_key (Crypto.sha256 plain "esk_2")) ≡ false
unfolding lookup_key lookup_prefix
hash_apart = refl

revoke-validate_example :
    let value = lookup_key (Crypto.sha256 plain "esk_2") in
    let revoked = revoke_api_key plain (memory Value) none_answered "ann" "2" registry in
    let valid = (validate_api_key plain (memory Value) "esk_2" 6 revoked.0).1 in
    (revoked.1 ≡ ok tt)
    × (none_answered value ≡ true → (c : Caller) → valid ≡ ok c → c.key_id ≢ "2")
    × (none_answered value ≡ false
        → valid ≡ (validate_api_key plain (memory Value) "esk_2" 6 registry).1)
revoke-validate_example =
    revoke-validate plain (memory Value) none_answered "ann" "2" "esk_2" 6 registry (row "2") refl
      hash_apart
