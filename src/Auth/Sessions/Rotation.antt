-- ===== src/Auth/Sessions/Rotation.antt =====
-- A refresh token works once: it is good after it was issued, and not after it was used or its
-- session was ended.
use edge_sphere_self_hosted.Prelude.{
  ℕ, ◌≡◌, refl, ap, ◌∙◌, true, false, Option, none, some, String, str_eq, eq_refl, if◌then◌else◌,
  arith, Bool-cases, Option-cases, inl, inr,
}
use edge_sphere_self_hosted.Prelude.Texts.{has_char}
use edge_sphere_self_hosted.Redis.{Redis}
use edge_sphere_self_hosted.Auth.Users.{UserEntity, find_by_id}
use edge_sphere_self_hosted.Auth.Sessions.{
  Value, token_text, Crypto, World, ok, err, unauthorized, session_key, refresh_key, token_parts,
  make_refresh_token, device_of, is_stored, generate_token_pair, issue, refresh_tokens, logout,
}
use edge_sphere_self_hosted.Auth.Sessions.Storing.{
  token_parts-make, store-get, store-get_free, stored_iff, not_stored,
}

module _ (C : Crypto) (jwt_expires_in : String) (R : Redis Value) where
  open R use {Db, get, set, del, zrem, get-del, get-zrem}

  -- A token that is not stored is refused, and nothing changes.
  refresh-unstored :
      (refresh_token user_agent : String) (now : ℕ) (uuid : String) (w : World Db)
      (parts : String × String × String)
      → token_parts C refresh_token ≡ some parts
      → is_stored R (refresh_key parts.0 parts.1) refresh_token w.db ≡ false
      → refresh_tokens C jwt_expires_in R refresh_token user_agent now uuid w
        ≡ (w, err unauthorized)
  unfolding refresh_tokens
  refresh-unstored refresh_token user_agent now uuid w parts read unstored =
      rw (read, refresh_tokens, unstored) refl

  -- A stored token of an active user gives a new pair for the same device.
  refresh-stored :
      (refresh_token user_agent : String) (now : ℕ) (uuid : String) (w : World Db)
      (parts : String × String × String) (user : UserEntity)
      → token_parts C refresh_token ≡ some parts
      → is_stored R (refresh_key parts.0 parts.1) refresh_token w.db ≡ true
      → find_by_id parts.0 w.users ≡ some user
      → user.is_active ≡ true
      → refresh_tokens C jwt_expires_in R refresh_token user_agent now uuid w
        ≡ issue C jwt_expires_in R user user_agent
            (some parts.1)
            now
            uuid
            (record w { db = del (refresh_key parts.0 parts.1) w.db })
  unfolding refresh_tokens
  refresh-stored refresh_token user_agent now uuid w parts user read stored found active =
      rw (read, refresh_tokens, stored) (rw found (simp active refl))

  -- What is under the key of a token after it was refreshed is the new token or nothing.
  refreshed-get :
      (user : UserEntity) (user_agent device_id key : String) (now : ℕ) (uuid : String)
      (w : World Db)
      → let spent : World Db = record w { db = del key w.db } in
        let issued = issue C jwt_expires_in R user user_agent (some device_id) now uuid spent in
        (get key issued.0.db ≡ (
          if str_eq (refresh_key user.id (device_of C (some device_id) user_agent)) key
          then some (
              token_text
                (make_refresh_token C user.id (device_of C (some device_id) user_agent) uuid))
          else none))
  unfolding issue generate_token_pair
  refreshed-get user user_agent device_id key now uuid w =
      let device = device_of C (some device_id) user_agent in
      let gone : get key (del key w.db) ≡ none =
        get-del key key w.db ∙ ground (arith, eq_refl key) in
      store-get_free R user.id device (make_refresh_token C user.id device uuid) key now
        (del key w.db) gone

  issue-stores :
      (user : UserEntity) (user_agent : String) (existing : Option String) (now : ℕ) (uuid : String)
      (w : World Db)
      → let device = device_of C existing user_agent in
        let issued = issue C jwt_expires_in R user user_agent existing now uuid w in
        get (refresh_key user.id device) issued.0.db
        ≡ some (token_text (make_refresh_token C user.id device uuid))
  unfolding issue generate_token_pair
  issue-stores user user_agent existing now uuid w =
      let device = device_of C existing user_agent in
      store-get R user.id device (make_refresh_token C user.id device uuid) now w.db

  issue-users :
      (user : UserEntity) (user_agent : String) (existing : Option String) (now : ℕ) (uuid : String)
      (w : World Db)
      → (issue C jwt_expires_in R user user_agent existing now uuid w).0.users ≡ w.users
  unfolding issue
  issue-users user user_agent existing now uuid w = refl

  issue-token :
      (user : UserEntity) (user_agent : String) (existing : Option String) (now : ℕ) (uuid : String)
      (w : World Db)
      → let pair =
          (generate_token_pair C jwt_expires_in R user user_agent existing now uuid w.db).1 in
        (pair.refresh_token ≡ make_refresh_token C user.id (device_of C existing user_agent) uuid)
        × ((issue C jwt_expires_in R user user_agent existing now uuid w).1 ≡ ok pair)
  unfolding issue generate_token_pair
  issue-token user user_agent existing now uuid w = (refl, refl)

  -- A user of the table who is active gets a pair; when the user's id, the device id and the random
  -- id hold no colon, the pair's refresh token is good on the database as it was left: refreshing it
  -- ends the token and gives the user a new pair for the same device.
  pub issue-refresh :
      (user : UserEntity) (user_agent later_agent : String) (existing : Option String)
      (uuid later_uuid : String) (now later : ℕ) (w : World Db)
      → has_char ":" user.id ≡ false
      → has_char ":" (device_of C existing user_agent) ≡ false
      → has_char ":" uuid ≡ false
      → find_by_id user.id w.users ≡ some user
      → user.is_active ≡ true
      → let device = device_of C existing user_agent in
        let pair =
          (generate_token_pair C jwt_expires_in R user user_agent existing now uuid w.db).1 in
        let issued = issue C jwt_expires_in R user user_agent existing now uuid w in
        let spent : World Db = record issued.0 {
          db = del (refresh_key user.id device) issued.0.db;
        } in
        (issued.1 ≡ ok pair)
        × (refresh_tokens C jwt_expires_in R pair.refresh_token later_agent later later_uuid
              issued.0
            ≡ issue C jwt_expires_in R user later_agent (some device) later later_uuid spent)
  issue-refresh user user_agent later_agent existing uuid later_uuid now later w h k l found
        active =
      let device = device_of C existing user_agent in
      let token = make_refresh_token C user.id device uuid in
      let issued = issue C jwt_expires_in R user user_agent existing now uuid w in
      let (made, answered) = issue-token user user_agent existing now uuid w in
      let stored : is_stored R (refresh_key user.id device) token issued.0.db ≡ true =
        stored_iff R (refresh_key user.id device) token token issued.0.db
          (issue-stores user user_agent existing now uuid w)
        ∙ eq_refl token in
      (
        answered,
        ap (λ t. refresh_tokens C jwt_expires_in R t later_agent later later_uuid issued.0) made
            ∙ refresh-stored token later_agent later later_uuid issued.0 (user.id, device, uuid)
                user (token_parts-make C user.id device uuid h k l) stored
                (ap (find_by_id user.id) (issue-users user user_agent existing now uuid w) ∙ found)
                active,
      )

  issued-unstored :
      (user : UserEntity) (refresh_token user_agent device_id key : String) (now : ℕ)
      (uuid : String) (w : World Db)
      → ((user_id device_id : String)
          → str_eq (make_refresh_token C user_id device_id uuid) refresh_token ≡ false)
      → let spent : World Db = record w { db = del key w.db } in
        is_stored R key refresh_token
          (issue C jwt_expires_in R user user_agent (some device_id) now uuid spent).0.db
        ≡ false
  issued-unstored user refresh_token user_agent device_id key now uuid w fresh =
      let device = device_of C (some device_id) user_agent in
      let spent : World Db = record w { db = del key w.db } in
      let after = (issue C jwt_expires_in R user user_agent (some device_id) now uuid spent).0.db in
      let held = refreshed-get user user_agent device_id key now uuid w in
      elim (Bool-cases (str_eq (refresh_key user.id device) key)) [
        | inl replaced ↦
            stored_iff R key refresh_token (make_refresh_token C user.id device uuid) after
              (rw replaced at held)
            ∙ fresh user.id device
        | inr apart ↦ not_stored R key refresh_token after (rw apart at held)
      ]

  deleted-unstored :
      (key refresh_token : String) (db : Db) → is_stored R key refresh_token (del key db) ≡ false
  deleted-unstored key refresh_token db =
      not_stored R key refresh_token (del key db) (get-del key key db ∙ ground (arith, eq_refl key))

  -- After a use of a token, whatever its answer, the database does not store it.
  refresh-spends :
      (refresh_token user_agent : String) (now : ℕ) (uuid : String) (w : World Db)
      (parts : String × String × String)
      → token_parts C refresh_token ≡ some parts
      → ((user_id device_id : String)
          → str_eq (make_refresh_token C user_id device_id uuid) refresh_token ≡ false)
      → let outcome = refresh_tokens C jwt_expires_in R refresh_token user_agent now uuid w in
        is_stored R (refresh_key parts.0 parts.1) refresh_token outcome.0.db ≡ false
  unfolding refresh_tokens
  refresh-spends refresh_token user_agent now uuid w parts read fresh =
      let key = refresh_key parts.0 parts.1 in
      elim (Bool-cases (is_stored R key refresh_token w.db)) [
        | inr unstored ↦ rw (read, refresh_tokens) (rw unstored unstored)
        | inl stored ↦
            rw (read, refresh_tokens)
              (rw stored (elim (Option-cases (find_by_id parts.0 w.users)) [
                | inl gone ↦ rw gone (deleted-unstored key refresh_token w.db)
                | inr (user, found) ↦ rw found (elim (Bool-cases user.is_active) [
                  | inl active ↦
                      simp active
                        (issued-unstored user refresh_token user_agent parts.1 key now uuid w fresh)
                  | inr disabled ↦ simp disabled (deleted-unstored key refresh_token w.db)
                ])
              ]))
      ]

  refresh-malformed :
      (refresh_token user_agent : String) (now : ℕ) (uuid : String) (w : World Db)
      → token_parts C refresh_token ≡ none
      → refresh_tokens C jwt_expires_in R refresh_token user_agent now uuid w
        ≡ (w, err unauthorized)
  unfolding refresh_tokens
  refresh-malformed refresh_token user_agent now uuid w malformed =
      rw (malformed, refresh_tokens) refl

  -- A refresh token is good once: whatever the first use of any text answered, a second use of it is
  -- refused and changes nothing, if no token made with the first use's random id is that text.
  pub refresh_once :
      (refresh_token user_agent later_agent : String) (now later : ℕ) (uuid later_uuid : String)
      (w : World Db)
      → ((user_id device_id : String)
          → str_eq (make_refresh_token C user_id device_id uuid) refresh_token ≡ false)
      → let after = (refresh_tokens C jwt_expires_in R refresh_token user_agent now uuid w).0 in
        refresh_tokens C jwt_expires_in R refresh_token later_agent later later_uuid after
        ≡ (after, err unauthorized)
  refresh_once refresh_token user_agent later_agent now later uuid later_uuid w fresh =
      let after = (refresh_tokens C jwt_expires_in R refresh_token user_agent now uuid w).0 in
      elim (Option-cases (token_parts C refresh_token)) [
        | inl malformed ↦
            refresh-malformed refresh_token later_agent later later_uuid after malformed
        | inr (parts, read) ↦
            refresh-unstored refresh_token later_agent later later_uuid after parts read
              (refresh-spends refresh_token user_agent now uuid w parts read fresh)
      ]

  -- After a user logged out with a token of theirs, the token is refused, whatever was stored.
  pub logout-refresh :
      (refresh_token user_agent : String) (now : ℕ) (uuid : String) (w : World Db)
      (parts : String × String × String)
      → token_parts C refresh_token ≡ some parts
      → let after = logout C jwt_expires_in R parts.0 refresh_token w in
        refresh_tokens C jwt_expires_in R refresh_token user_agent now uuid after
        ≡ (after, err unauthorized)
  unfolding logout
  logout-refresh refresh_token user_agent now uuid w parts read =
      let key = refresh_key parts.0 parts.1 in
      let after = logout C jwt_expires_in R parts.0 refresh_token w in
      let deleted = del key w.db in
      let gone : get key after.db ≡ none =
        rw (read, logout)
          (get-zrem (session_key parts.0) key parts.1 deleted
            ∙ get-del key key w.db
            ∙ ground (arith, eq_refl key)) in
      refresh-unstored refresh_token user_agent now uuid after parts read
        (not_stored R key refresh_token after.db gone)
