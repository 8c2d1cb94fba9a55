-- ===== src/Auth/Users/Tests.antt =====
-- A run of the sign-in through a provider on a small table of users.
use edge_sphere_self_hosted.Prelude.{◌≡◌, refl, List, [], ◌∷◌, none, some}
use edge_sphere_self_hosted.Auth.Users.{
  UserEntity, new_user, find_by_email, find_or_create_by_oauth,
}
use edge_sphere_self_hosted.Auth.Users.Linking.{find_or_create_by_oauth_again}

abbrev users : List UserEntity
users = new_user "1" "ann@home" (some "hash") ∷ []

find_or_create_by_oauth_again_example :
    let outcome = find_or_create_by_oauth "2" "ann@home" (some "Ann") none "github" "77" users in
    (find_by_email "ann@home" outcome.0 ≡ some outcome.1)
    × (outcome.1.email ≡ "ann@home")
    × (find_or_create_by_oauth "3" "ann@home" (some "Ann") none "github" "77" outcome.0 ≡ outcome)
find_or_create_by_oauth_again_example =
    find_or_create_by_oauth_again "2" "3" "ann@home" (some "Ann") none "github" "77" users refl
