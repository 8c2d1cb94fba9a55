-- ===== src/Auth/Sessions/Counting.antt =====
-- How many sessions a user has after each command on the database.
use Prim.Native.String.{◌++◌ as str_append}
use text.Mathlib.TextLemmas.{cons-append}
use edge_sphere_self_hosted.Prelude.{
  ℕ, ◌+◌, ◌≤◌, ◌≡◌, refl, ap, ◌∙◌, List, ◌∷◌, false, not, String, str_eq, eq_iff, eq_refl, ltb,
  length, length-append, keep, length-keep-le, arith, Bool-cases, List-cases, inl, inr,
}
use edge_sphere_self_hosted.Prelude.Texts.{starts_apart}
use edge_sphere_self_hosted.Redis.{Redis, Entry, is_member}
use edge_sphere_self_hosted.Auth.Sessions.{
  Value, max_sessions, refresh_token_ttl, session_key, refresh_key, colon_join, token_text,
  trim_sessions, store_session,
}

keys_apart :
    (user_id device_id other : String)
    → str_eq (refresh_key user_id device_id) (session_key other) ≡ false
unfolding refresh_key session_key
keys_apart user_id device_id other =
    rw
      (
        cons-append "r" "efresh:" (colon_join user_id device_id),
        cons-append "u" "ser_sessions:" other,
      )
      (starts_apart "r" "u" (str_append "efresh:" (colon_join user_id device_id))
        (str_append "ser_sessions:" other) refl)

-- Taking out the first member shortens the list.
without_first :
    (e : Entry) (es : List Entry) → length (keep (λ f. not (is_member e.0 f)) (e ∷ es)) ≤ length es
without_first e es = ground (arith, eq_refl e.0, length-keep-le (λ f. not (is_member e.0 f)) es)

module _ (R : Redis Value) where
  open R use {
    Db, get, set, del, zrange, zadd, zrem, expire, zrange-zadd, zrange-zrem, zrange-zadd_other,
    zrange-zrem_other, zrange-set, zrange-del, zrange-expire,
  }

  abbrev pub sessions : (user_id : String) → Db → ℕ
  sessions user_id db = length (zrange (session_key user_id) db)

  sessions-zadd :
      (user_id m : String) (now : ℕ) (db : Db)
      → sessions user_id (zadd (session_key user_id) now m db) ≤ 1 + sessions user_id db
  sessions-zadd user_id m now db =
      let key = session_key user_id in
      let (pre, post, without, placed, low, high) = zrange-zadd key now m db in
      let shorter = length-keep-le (λ e. not (is_member m e)) (zrange key db) in
      rw placed (
        omega
          (arith, length-append pre post, length-append pre ((m, now) ∷ post), ap length without))

  sessions-trim :
      (user_id : String) (db : Db)
      → sessions user_id db ≤ 6
      → sessions user_id (trim_sessions R user_id db) ≤ 5
  unfolding trim_sessions max_sessions
  sessions-trim user_id db h =
      let key = session_key user_id in
      elim (Bool-cases (ltb 5 (sessions user_id db))) [
        | inl over ↦ elim (List-cases (zrange key db)) [
          | inl nothing ↦ absurd (ground (arith, ap length nothing))
          | inr (oldest, rest, found) ↦
              let old = refresh_key user_id oldest.0 in
              let trimmed : trim_sessions R user_id db ≡ zrem key oldest.0 (del old db) =
                rw over (rw found refl) in
              let left : zrange key (zrem key oldest.0 (del old db))
                  ≡ keep (λ e. not (is_member oldest.0 e)) (oldest ∷ rest) =
                zrange-zrem key oldest.0 (del old db)
                ∙ ap (keep (λ e. not (is_member oldest.0 e)))
                    (zrange-del old key db (keys_apart user_id oldest.0 user_id) ∙ found) in
              let fewer = without_first oldest rest in
              omega (arith, ap (sessions user_id) trimmed, ap length left, ap length found)
        ]
        | inr within ↦ rw within (ground arith)
      ]

  pub sessions-del :
      (user_id device_id other : String) (db : Db)
      → sessions other (del (refresh_key user_id device_id) db) ≡ sessions other db
  sessions-del user_id device_id other db = ap length (
      zrange-del (refresh_key user_id device_id) (session_key other) db
        (keys_apart user_id device_id other))

  sessions-set :
      (user_id device_id other : String) (v : Value) (seconds : ℕ) (db : Db)
      → let key = refresh_key user_id device_id in
        sessions other (expire key seconds (set key v db)) ≡ sessions other db
  sessions-set user_id device_id other v seconds db =
      let key = refresh_key user_id device_id in
      ap length (
        zrange-expire key (session_key other) seconds (set key v db)
        ∙ zrange-set key (session_key other) v db (keys_apart user_id device_id other))

  pub sessions-zrem-le :
      (user_id m other : String) (db : Db)
      → sessions other (zrem (session_key user_id) m db) ≤ sessions other db
  sessions-zrem-le user_id m other db =
      elim (Bool-cases (str_eq (session_key user_id) (session_key other))) [
        | inl same ↦
            let keys : session_key user_id ≡ session_key other =
              ground (arith, eq_iff (session_key user_id) (session_key other)) in
            rw keys (
              rw (zrange-zrem (session_key other) m db)
                (length-keep-le (λ e. not (is_member m e)) (zrange (session_key other) db)))
        | inr apart ↦ omega (
          arith,
          ap length (zrange-zrem_other (session_key user_id) (session_key other) m db apart),
        )
      ]

  sessions-trim_other :
      (user_id other : String) (db : Db)
      → str_eq (session_key user_id) (session_key other) ≡ false
      → sessions other (trim_sessions R user_id db) ≤ sessions other db
  unfolding trim_sessions
  sessions-trim_other user_id other db apart =
      elim (Bool-cases (ltb max_sessions (sessions user_id db))) [
        | inl over ↦ elim (List-cases (zrange (session_key user_id) db)) [
          | inl nothing ↦ rw over (rw nothing (omega arith))
          | inr (oldest, rest, found) ↦
              let old = refresh_key user_id oldest.0 in
              let fewer = sessions-zrem-le user_id oldest.0 other (del old db) in
              rw over (rw found (omega (arith, sessions-del user_id oldest.0 other db)))
        ]
        | inr within ↦ rw within (omega arith)
      ]

  -- One more session for a user leaves each user within the limit.
  pub store-Bounded :
      (user_id device_id token other : String) (now : ℕ) (db : Db)
      → sessions other db ≤ 5
      → sessions other (store_session R user_id device_id token now db) ≤ 5
  unfolding store_session
  store-Bounded user_id device_id token other now db h =
      let added = zadd (session_key user_id) now device_id db in
      let stored =
        sessions-set user_id device_id other (token_text token) refresh_token_ttl
          (trim_sessions R user_id added) in
      elim (Bool-cases (str_eq (session_key user_id) (session_key other))) [
        | inl same ↦
            let keys : session_key user_id ≡ session_key other =
              ground (arith, eq_iff (session_key user_id) (session_key other)) in
            let before : sessions user_id db ≤ 5 = rw keys h in
            let grown = sessions-zadd user_id device_id now db in
            let trimmed = sessions-trim user_id added (omega arith) in
            let moved = ap (λ k. length (zrange k (trim_sessions R user_id added))) keys in
            omega arith
        | inr apart ↦
            let kept = sessions-trim_other user_id other added apart in
            let same_set = ap length (
              zrange-zadd_other (session_key user_id) (session_key other) now device_id db apart) in
            omega arith
      ]
