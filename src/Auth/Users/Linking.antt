-- ===== src/Auth/Users/Linking.antt =====
-- Signing in through a provider finds the account that it made or linked.
use edge_sphere_self_hosted.Prelude.{
  ◌≡◌, refl, sym, ap, ◌∙◌, List, [], ◌∷◌, true, false, Option, none, some, String, str_eq, eq_iff,
  eq_refl, find_sound, Bool-cases, Option-cases, inl, inr, arith,
}
use edge_sphere_self_hosted.Auth.Users.{
  UserEntity, has_email, has_id, find_by_email, new_user, save_new, save_user, is_missing,
  oauth_user, link_user, find_or_create_by_oauth,
}

find-save_new :
    (u : UserEntity) (users : List UserEntity)
    → find_by_email u.email users ≡ none
    → find_by_email u.email (save_new u users) ≡ some u
unfolding find_by_email save_new
find-save_new u [] h = ground (arith, eq_refl u.email)
find-save_new u (v ∷ users) h = ground (arith, find-save_new u users)

pub find-save_user :
    (u v : UserEntity) (users : List UserEntity)
    → find_by_email u.email users ≡ some v
    → u.id ≡ v.id
    → find_by_email u.email (save_user u users) ≡ some u
unfolding find_by_email save_user
find-save_user u v [] h k = cc
find-save_user u v (w ∷ users) h k = elim (Bool-cases (has_id u.id w)) [
  | inl same ↦ rw same (ground (arith, eq_refl u.email))
  | inr apart ↦ elim (Bool-cases (has_email u.email w)) [
    | inl here ↦
        let found : w ≡ v = ground arith in
        absurd (ground (arith, ap (λ x. x.id) found, eq_refl v.id))
    | inr elsewhere ↦ rw (apart, elsewhere) (find-save_user u v users (ground arith) k)
  ]
]

find_email_sound :
    (email : String) (users : List UserEntity) (u : UserEntity)
    → find_by_email email users ≡ some u
    → u.email ≡ email
unfolding find_by_email
find_email_sound email users u h =
    ground (arith, eq_iff u.email email, find_sound (has_email email) users u h)

-- A linked account is returned as it is.
oauth_settled :
    (id email : String) (display_name avatar : Option String) (provider provider_id : String)
    (users : List UserEntity) (u : UserEntity)
    → find_by_email email users ≡ some u
    → is_missing u.provider_id ≡ false
    → find_or_create_by_oauth id email display_name avatar provider provider_id users ≡ (users, u)
unfolding find_or_create_by_oauth
oauth_settled id email display_name avatar provider provider_id users u found linked =
    rw (found, find_or_create_by_oauth, linked) refl

oauth_absent :
    (id email : String) (display_name avatar : Option String) (provider provider_id : String)
    (users : List UserEntity)
    → find_by_email email users ≡ none
    → let made = oauth_user id email display_name avatar provider provider_id in
      find_or_create_by_oauth id email display_name avatar provider provider_id users
      ≡ (save_new made users, made)
unfolding find_or_create_by_oauth
oauth_absent id email display_name avatar provider provider_id users absent =
    rw (absent, find_or_create_by_oauth) refl

oauth_unlinked :
    (id email : String) (display_name avatar : Option String) (provider provider_id : String)
    (users : List UserEntity) (u : UserEntity)
    → find_by_email email users ≡ some u
    → is_missing u.provider_id ≡ true
    → let linked = link_user u display_name avatar provider provider_id in
      find_or_create_by_oauth id email display_name avatar provider provider_id users
      ≡ (save_user linked users, linked)
unfolding find_or_create_by_oauth
oauth_unlinked id email display_name avatar provider provider_id users u found unlinked =
    rw (found, find_or_create_by_oauth, unlinked) refl

module _ (id new_id email : String) (display_name avatar : Option String)
    (provider provider_id : String) (users : List UserEntity) where
  abbrev signed_in : List UserEntity × UserEntity
  signed_in = find_or_create_by_oauth id email display_name avatar provider provider_id users

  abbrev IsSettled : List UserEntity × UserEntity → Type 0
  IsSettled outcome =
      (find_by_email email outcome.0 ≡ some outcome.1)
      × (outcome.1.email ≡ email)
      × (find_or_create_by_oauth new_id email display_name avatar provider provider_id outcome.0
          ≡ outcome)

  stored-IsSettled :
      (after : List UserEntity) (u : UserEntity)
      → find_by_email email after ≡ some u
      → is_missing u.provider_id ≡ false
      → IsSettled (after, u)
  stored-IsSettled after u found linked = (
    found,
    find_email_sound email after u found,
    oauth_settled new_id email display_name avatar provider provider_id after u found linked,
  )

  -- Whatever the table holds, the user that the call returns has the email, and the table after the
  -- call holds it under that email; when the provider's id is not empty, a second sign-in by the
  -- same provider account changes nothing and returns the same user.
  pub find_or_create_by_oauth_again :
      str_eq provider_id "" ≡ false
      → let outcome =
          find_or_create_by_oauth id email display_name avatar provider provider_id users in
        (find_by_email email outcome.0 ≡ some outcome.1)
        × (outcome.1.email ≡ email)
        × (find_or_create_by_oauth new_id email display_name avatar provider provider_id outcome.0
            ≡ outcome)
  unfolding oauth_user new_user link_user is_missing
  find_or_create_by_oauth_again given =
      let made = oauth_user id email display_name avatar provider provider_id in
      elim (Option-cases (find_by_email email users)) [
        | inl absent ↦
            rw (oauth_absent id email display_name avatar provider provider_id users absent)
              (stored-IsSettled (save_new made users) made (find-save_new made users absent) given)
        | inr (u, present) ↦ elim (Bool-cases (is_missing u.provider_id)) [
          | inl unlinked ↦
              let linked = link_user u display_name avatar provider provider_id in
              let same_email = find_email_sound email users u present in
              let found : find_by_email email (save_user linked users) ≡ some linked =
                ap (λ e. find_by_email e (save_user linked users)) (sym same_email)
                ∙ find-save_user linked u users
                    (ap (λ e. find_by_email e users) same_email ∙ present) refl in
              rw
                (oauth_unlinked id email display_name avatar provider provider_id users u present
                  unlinked)
                (stored-IsSettled (save_user linked users) linked found given)
          | inr linked ↦
              rw
                (oauth_settled id email display_name avatar provider provider_id users u present
                  linked)
                (stored-IsSettled users u present linked)
        ]
      ]
