-- ===== src/Auth/Sessions/Tests.antt =====
-- Runs of the sessions on a small table of users, with stand-ins for the cryptographic functions.
use edge_sphere_self_hosted.Prelude.{
  ◌≤◌, ◌≡◌, refl, [], ◌∷◌, true, false, none, some, String, str_eq, eq_refl, arith,
}
use edge_sphere_self_hosted.Prelude.Texts.{starts_apart, has_char}
use edge_sphere_self_hosted.Redis.{Redis}
use edge_sphere_self_hosted.Redis.Memory.{memory, empty}
use edge_sphere_self_hosted.Auth.Users.{UserEntity, new_user, find_by_id}
use edge_sphere_self_hosted.Auth.Sessions.{
  Value, token_text, Crypto, World, ok, err, unauthorized, refresh_key, token_parts, token_triple,
  device_of, make_refresh_token, colon_join, generate_token_pair, issue, refresh_tokens, logout,
  parse_expiry, parse_from, unit_seconds,
}
use edge_sphere_self_hosted.Auth.Sessions.Bound.{logged_in, refreshed, run, run-IsBounded}
use edge_sphere_self_hosted.Auth.Sessions.Counting.{sessions}
use edge_sphere_self_hosted.Auth.Sessions.Rotation.{issue-refresh, refresh_once, logout-refresh}

minutes : parse_expiry "15m" ≡ 900
unfolding parse_expiry parse_from unit_seconds
minutes = refl

days : parse_expiry "7d" ≡ 604800
unfolding parse_expiry parse_from unit_seconds
days = refl

not_an_expiry : parse_expiry "7w" ≡ 900
unfolding parse_expiry parse_from unit_seconds
not_an_expiry = refl

abbrev without_mark : String → String
without_mark String.[] = ""
without_mark (String.◌∷◌ c t) = t

abbrev plain : Crypto
plain = record {
  hash = λ p salt rounds. p;
  compare = str_eq;
  compare-hash = λ p salt rounds. eq_refl p;
  sha256 = λ t. t;
  to_base64 = λ t. String.◌∷◌ "x" t;
  from_base64 = without_mark;
  from-to_base64 = λ t. refl;
  sign = λ p. p.sub;
}

abbrev ann : UserEntity
ann = new_user "ann" "ann@home" (some "secret")

abbrev start : World (Redis.Db (memory Value))
start = record { db = empty; users = ann ∷ [] }

abbrev old_token : String
old_token = "zann:pc:1"

abbrev signed_in : World (Redis.Db (memory Value))
signed_in = record {
  db = Redis.set (memory Value) (refresh_key "ann" "pc") (token_text old_token) empty;
  users = ann ∷ [];
}

run-IsBounded_example :
    sessions
      (memory Value)
      "ann"
      (run plain "15m"
        (memory Value)
        (logged_in "ann@home" "secret" "ip" "pc" 5 "1"
          ∷ logged_in "ann@home" "secret" "ip" "phone" 6 "2"
          ∷ refreshed old_token "pc" 7 "3"
          ∷ [])
        start).db
    ≤ 5
run-IsBounded_example =
    run-IsBounded plain "15m" (memory Value)
      (logged_in "ann@home" "secret" "ip" "pc" 5 "1"
        ∷ logged_in "ann@home" "secret" "ip" "phone" 6 "2"
        ∷ refreshed old_token "pc" 7 "3"
        ∷ [])
      "ann" start (omega arith)

never_made :
    (user_id device_id : String)
    → str_eq (make_refresh_token plain user_id device_id "2") old_token ≡ false
unfolding make_refresh_token
never_made user_id device_id =
    starts_apart "x" "z" (colon_join user_id (colon_join device_id "2")) "ann:pc:1" refl

refresh_once_example :
    let after = (refresh_tokens plain "15m" (memory Value) old_token "pc" 8 "2" signed_in).0 in
    refresh_tokens plain "15m" (memory Value) old_token "pc" 9 "3" after ≡ (after, err unauthorized)
refresh_once_example =
    refresh_once plain "15m" (memory Value) old_token "pc" "pc" 8 9 "2" "3" signed_in never_made

old_token_lem : token_parts plain old_token ≡ some ("ann", "pc", "1")
unfolding token_parts token_triple
old_token_lem = refl

logout-refresh_example :
    let after = logout plain "15m" (memory Value) "ann" old_token signed_in in
    refresh_tokens plain "15m" (memory Value) old_token "pc" 9 "3" after ≡ (after, err unauthorized)
logout-refresh_example =
    logout-refresh plain "15m" (memory Value) old_token "pc" 9 "3" signed_in ("ann", "pc", "1")
      old_token_lem

ann_lem : (ann.id ≡ "ann") × (ann.is_active ≡ true)
unfolding new_user
ann_lem = (refl, refl)

no_colon : has_char ":" ann.id ≡ false
unfolding new_user
no_colon = refl

ann_found : find_by_id ann.id (ann ∷ []) ≡ some ann
unfolding find_by_id new_user
ann_found = refl

device_lem : has_char ":" (device_of plain none "pc") ≡ false
unfolding device_of
device_lem = refl

issue-refresh_example :
    let pair = (generate_token_pair plain "15m" (memory Value) ann "pc" none 5 "1" empty).1 in
    let issued = issue plain "15m" (memory Value) ann "pc" none 5 "1" start in
    let device = device_of plain none "pc" in
    let spent : World (Redis.Db (memory Value)) = record issued.0 {
      db = Redis.del (memory Value) (refresh_key ann.id device) issued.0.db;
    } in
    (issued.1 ≡ ok pair)
    × (refresh_tokens plain "15m" (memory Value) pair.refresh_token "tab" 6 "2" issued.0
        ≡ issue plain "15m" (memory Value) ann "tab" (some device) 6 "2" spent)
issue-refresh_example =
    issue-refresh plain "15m" (memory Value) ann "pc" "tab" none "1" "2" 5 6 start no_colon
      device_lem refl ann_found (ann_lem.1)
