-- ===== src/Auth/Sessions/Bound.antt =====
-- No user ever has more than MAX_SESSIONS sessions.
use edge_sphere_self_hosted.Prelude.{
  ℕ, ◌≤◌, List, [], ◌∷◌, Option, none, some, String, arith, Bool-cases, Option-cases, inl, inr,
}
use edge_sphere_self_hosted.Redis.{Redis}
use edge_sphere_self_hosted.Auth.Users.{
  UserEntity, find_by_email, find_by_id, new_user, save_new, update_last_login,
}
use edge_sphere_self_hosted.Auth.Sessions.{
  Value, Crypto, World, refresh_key, generate_token_pair, issue, register, login_oauth, login,
  refresh_tokens, logout, token_parts, is_stored, password_valid, device_of, make_refresh_token,
  bcrypt_rounds,
}
use edge_sphere_self_hosted.Auth.Sessions.Counting.{
  sessions, sessions-del, sessions-zrem-le, store-Bounded,
}

-- The calls that can change the database, with the ids and times that the world gives to each.
pub data Call : Type 0 where
  registered : (email password salt new_id : String) (now : ℕ) (uuid : String) → Call
  logged_in : (email password ip user_agent : String) (now : ℕ) (uuid : String) → Call
  oauth_logged_in : UserEntity → (ip user_agent : String) (now : ℕ) (uuid : String) → Call
  refreshed : (refresh_token user_agent : String) (now : ℕ) (uuid : String) → Call
  logged_out : (user_id refresh_token : String) → Call

module _ (C : Crypto) (jwt_expires_in : String) (R : Redis Value) where
  open R use {Db, del, zrem}

  unfoldable pub step : Call → World Db → World Db
  step (registered email password salt new_id now uuid) w =
      (register C jwt_expires_in R email password salt new_id now uuid w).0
  step (logged_in email password ip user_agent now uuid) w =
      (login C jwt_expires_in R email password ip user_agent now uuid w).0
  step (oauth_logged_in user ip user_agent now uuid) w =
      (login_oauth C jwt_expires_in R user ip user_agent now uuid w).0
  step (refreshed refresh_token user_agent now uuid) w =
      (refresh_tokens C jwt_expires_in R refresh_token user_agent now uuid w).0
  step (logged_out user_id refresh_token) w = logout C jwt_expires_in R user_id refresh_token w

  unfoldable pub run : List Call → World Db → World Db
  run [] w = w
  run (c ∷ cs) w = run cs (step c w)

  abbrev pub IsBounded : (user_id : String) → World Db → Type 0
  IsBounded user_id w = sessions R user_id w.db ≤ 5

  issue-IsBounded :
      (user : UserEntity) (user_agent : String) (device : Option String) (now : ℕ)
      (uuid id : String) (w : World Db)
      → IsBounded id w
      → IsBounded id (issue C jwt_expires_in R user user_agent device now uuid w).0
  unfolding issue generate_token_pair
  issue-IsBounded user user_agent device now uuid id w h =
      let device_id = device_of C device user_agent in
      store-Bounded R user.id device_id (make_refresh_token C user.id device_id uuid) id now w.db h

  login_oauth-IsBounded :
      (user : UserEntity) (ip user_agent : String) (now : ℕ) (uuid id : String) (w : World Db)
      → IsBounded id w
      → IsBounded id (login_oauth C jwt_expires_in R user ip user_agent now uuid w).0
  unfolding login_oauth
  login_oauth-IsBounded user ip user_agent now uuid id w h = elim (Bool-cases user.is_active) [
    | inl active ↦ simp active (
        issue-IsBounded user user_agent none now uuid id
          (record w { users = update_last_login user.id ip now w.users }) h)
    | inr disabled ↦ simp disabled h
  ]

  refresh-IsBounded :
      (refresh_token user_agent : String) (now : ℕ) (uuid id : String) (w : World Db)
      → IsBounded id w
      → IsBounded id (refresh_tokens C jwt_expires_in R refresh_token user_agent now uuid w).0
  unfolding refresh_tokens
  refresh-IsBounded refresh_token user_agent now uuid id w h =
      elim (Option-cases (token_parts C refresh_token)) [
        | inl malformed ↦ rw (malformed, refresh_tokens) h
        | inr (parts, split_up) ↦
            let key = refresh_key parts.0 parts.1 in
            let spent : World Db = record w { db = del key w.db } in
            let kept : IsBounded id spent = omega (arith, sessions-del R parts.0 parts.1 id w.db) in
            rw (split_up, refresh_tokens)
              (elim (Bool-cases (is_stored R key refresh_token w.db)) [
                | inl stored ↦ rw stored (elim (Option-cases (find_by_id parts.0 w.users)) [
                  | inl gone ↦ rw gone kept
                  | inr (user, found) ↦ rw found (elim (Bool-cases user.is_active) [
                    | inl active ↦
                        simp active
                          (issue-IsBounded user user_agent (some parts.1) now uuid id spent kept)
                    | inr disabled ↦ simp disabled kept
                  ])
                ])
                | inr other ↦ rw other h
              ])
      ]

  logout-IsBounded :
      (user_id refresh_token id : String) (w : World Db)
      → IsBounded id w
      → IsBounded id (logout C jwt_expires_in R user_id refresh_token w)
  unfolding logout
  logout-IsBounded user_id refresh_token id w h =
      elim (Option-cases (token_parts C refresh_token)) [
        | inl malformed ↦ rw (malformed, logout) h
        | inr (parts, split_up) ↦
            let deleted = del (refresh_key user_id parts.1) w.db in
            let fewer = sessions-zrem-le R user_id parts.1 id deleted in
            rw (split_up, logout) (omega (arith, sessions-del R user_id parts.1 id w.db))
      ]

  register-IsBounded :
      (email password salt new_id : String) (now : ℕ) (uuid id : String) (w : World Db)
      → IsBounded id w
      → IsBounded id (register C jwt_expires_in R email password salt new_id now uuid w).0
  unfolding register
  register-IsBounded email password salt new_id now uuid id w h =
      elim (Option-cases (find_by_email email w.users)) [
        | inl free ↦
            let user = new_user new_id email (some (Crypto.hash C password salt bcrypt_rounds)) in
            let joined : World Db = record w { users = save_new user w.users } in
            rw (free, register) (issue-IsBounded user "" none now uuid id joined h)
        | inr (user, taken) ↦ rw (taken, register) h
      ]

  login-IsBounded :
      (email password ip user_agent : String) (now : ℕ) (uuid id : String) (w : World Db)
      → IsBounded id w
      → IsBounded id (login C jwt_expires_in R email password ip user_agent now uuid w).0
  unfolding login
  login-IsBounded email password ip user_agent now uuid id w h =
      elim (Option-cases (find_by_email email w.users)) [
        | inl unknown ↦ rw (unknown, login) h
        | inr (user, found) ↦
            rw (found, login)
              (elim (Bool-cases (password_valid C password user)) [
                | inl valid ↦ rw valid (login_oauth-IsBounded user ip user_agent now uuid id w h)
                | inr invalid ↦ rw invalid h
              ])
      ]

  step-IsBounded :
      (c : Call) (id : String) (w : World Db) → IsBounded id w → IsBounded id (step c w)
  unfolding step
  step-IsBounded (registered email password salt new_id now uuid) id w h =
      register-IsBounded email password salt new_id now uuid id w h
  step-IsBounded (logged_in email password ip user_agent now uuid) id w h =
      login-IsBounded email password ip user_agent now uuid id w h
  step-IsBounded (oauth_logged_in user ip user_agent now uuid) id w h =
      login_oauth-IsBounded user ip user_agent now uuid id w h
  step-IsBounded (refreshed refresh_token user_agent now uuid) id w h =
      refresh-IsBounded refresh_token user_agent now uuid id w h
  step-IsBounded (logged_out user_id refresh_token) id w h =
      logout-IsBounded user_id refresh_token id w h

  -- Whatever calls follow on a database in which a user has at most five sessions, the user has at
  -- most five after them.
  pub run-IsBounded :
      (cs : List Call) (id : String) (w : World Db) → IsBounded id w → IsBounded id (run cs w)
  unfolding run
  run-IsBounded [] id w h = h
  run-IsBounded (c ∷ cs) id w h = run-IsBounded cs id (step c w) (step-IsBounded c id w h)
