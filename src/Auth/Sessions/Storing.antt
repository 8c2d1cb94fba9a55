-- ===== src/Auth/Sessions/Storing.antt =====
-- What a stored session leaves under the keys of refresh tokens, and the parts of a token.
use text.Mathlib.TextLemmas.{nil-append, cons-append}
use edge_sphere_self_hosted.Prelude.{
  ℕ, ◌≡◌, refl, ap, ◌∙◌, ◌∷◌, false, none, some, String, str_eq, eq_refl, ltb, if◌then◌else◌,
  length, arith, Bool-cases, List-cases, inl, inr,
}
use edge_sphere_self_hosted.Prelude.Texts.{has_char, split, split-append, split_whole}
use edge_sphere_self_hosted.Redis.{Redis}
use edge_sphere_self_hosted.Auth.Sessions.{
  Value, token_text, Crypto, max_sessions, refresh_token_ttl, session_key, refresh_key, colon_join,
  token_triple, token_parts, make_refresh_token, trim_sessions, store_session, is_stored,
}

colon_join-split :
    (a b : String) → has_char ":" a ≡ false → split ":" (colon_join a b) ≡ a ∷ split ":" b
unfolding colon_join
colon_join-split a b h = rw (cons-append ":" "" b, nil-append b) (split-append ":" a b h)

-- A made token is read back as its parts, when none of them holds a colon.
pub token_parts-make :
    (C : Crypto) (user_id device_id uuid : String)
    → has_char ":" user_id ≡ false
    → has_char ":" device_id ≡ false
    → has_char ":" uuid ≡ false
    → token_parts C (make_refresh_token C user_id device_id uuid) ≡ some (user_id, device_id, uuid)
unfolding token_parts make_refresh_token token_triple
token_parts-make C user_id device_id uuid h k l =
    rw
      (
        Crypto.from-to_base64 C (colon_join user_id (colon_join device_id uuid)),
        colon_join-split user_id (colon_join device_id uuid) h,
        colon_join-split device_id uuid k,
        split_whole ":" uuid l,
      )
      refl

module _ (R : Redis Value) where
  open R use {
    Db, get, set, del, zrange, zadd, zrem, expire, get-set, get-del, get-zadd, get-zrem, get-expire,
  }

  -- Trimming loses values only.
  trim-get :
      (user_id j : String) (db : Db) → get j db ≡ none → get j (trim_sessions R user_id db) ≡ none
  unfolding trim_sessions
  trim-get user_id j db h =
      elim (Bool-cases (ltb max_sessions (length (zrange (session_key user_id) db)))) [
        | inl over ↦ elim (List-cases (zrange (session_key user_id) db)) [
          | inl nothing ↦ rw over (rw nothing h)
          | inr (oldest, rest, found) ↦
              let old = refresh_key user_id oldest.0 in
              rw over (
                rw found (
                  get-zrem (session_key user_id) j oldest.0 (del old db)
                  ∙ get-del old j db
                  ∙ ground (arith, h)))
        ]
        | inr within ↦ rw within h
      ]

  pub store-get :
      (user_id device_id token : String) (now : ℕ) (db : Db)
      → get (refresh_key user_id device_id) (store_session R user_id device_id token now db)
        ≡ some (token_text token)
  unfolding store_session
  store-get user_id device_id token now db =
      let key = refresh_key user_id device_id in
      let trimmed = trim_sessions R user_id (zadd (session_key user_id) now device_id db) in
      get-expire key key refresh_token_ttl (set key (token_text token) trimmed)
      ∙ get-set key key (token_text token) trimmed
      ∙ ground (arith, eq_refl key)

  -- Where there was nothing, a stored session leaves its token or nothing.
  pub store-get_free :
      (user_id device_id token j : String) (now : ℕ) (db : Db)
      → get j db ≡ none
      → get j (store_session R user_id device_id token now db)
        ≡ (if str_eq (refresh_key user_id device_id) j then some (token_text token) else none)
  unfolding store_session
  store-get_free user_id device_id token j now db h =
      let key = refresh_key user_id device_id in
      let added = zadd (session_key user_id) now device_id db in
      let free = trim-get user_id j added (get-zadd (session_key user_id) j now device_id db ∙ h) in
      get-expire key j refresh_token_ttl
        (set key (token_text token) (trim_sessions R user_id added))
      ∙ get-set key j (token_text token) (trim_sessions R user_id added)
      ∙ ap (λ o. if str_eq key j then some (token_text token) else o) free

  pub stored_iff :
      (key token t : String) (db : Db)
      → get key db ≡ some (token_text t)
      → is_stored R key token db ≡ str_eq t token
  unfolding is_stored
  stored_iff key token t db h = rw (h, is_stored) refl

  pub not_stored :
      (key token : String) (db : Db) → get key db ≡ none → is_stored R key token db ≡ false
  unfolding is_stored
  not_stored key token db h = rw (h, is_stored) refl
