-- ===== src/Gateway/RateLimit/Window.antt =====
-- The sliding window admits a call exactly when the calls of the last window, this one among them,
-- are within the limit.
use edge_sphere_self_hosted.Prelude.{
  ℕ, ◌+◌, ◌-◌, ◌*◌, ◌≤◌, ◌≡◌, refl, sym, ap, ◌∙◌, List, [], ◌∷◌, ◌++◌, Bool, true, false, not, ◌&&◌,
  String, ltb, leb, if◌then◌else◌, length, keep, any, All, All-map, arith, Bool-cases, inl, inr,
}
use edge_sphere_self_hosted.Redis.{Redis, Entry, is_member}
use edge_sphere_self_hosted.Gateway.RateLimit.{
  ran, ceil_div, window_key, window_commands, sliding_window,
}

-- A call of the last `window_ms` milliseconds: its time is in `(now - window_ms, now]`.
abbrev pub is_live : (window_ms now : ℕ) → Entry → Bool
is_live window_ms now e = ltb now (e.1 + window_ms)

abbrev count : (Entry → Bool) → List Entry → ℕ
count p es = length (keep p es)

-- Each request has an id of its own.
abbrev pub is_fresh : String → List Entry → Bool
is_fresh m es = not (any (is_member m) es)

count-append :
    (p : Entry → Bool) (xs ys : List Entry) → count p (xs ++ ys) ≡ count p xs + count p ys
count-append p [] ys = omega arith
count-append p (x ∷ xs) ys = ground (arith, count-append p xs ys)

count-keep :
    (p q : Entry → Bool) (es : List Entry) → count p (keep q es) ≡ count (λ e. q e && p e) es
count-keep p q [] = refl
count-keep p q (e ∷ es) = ground (arith, count-keep p q es)

-- Filters that agree on the entries of a list count the same.
count-agree :
    (p q : Entry → Bool) (es : List Entry) → All (λ e. p e ≡ q e) es → count p es ≡ count q es
count-agree p q [] h = refl
count-agree p q (e ∷ es) (h, hs) = ground (arith, count-agree p q es hs)

count-nothing : (es : List Entry) → count (λ e. false) es ≡ 0
count-nothing [] = refl
count-nothing (e ∷ es) = count-nothing es

-- A list has as many entries as pass a test that all pass.
count-everything : (es : List Entry) → count (λ e. true) es ≡ length es
count-everything [] = refl
count-everything (e ∷ es) = omega (arith, count-everything es)

is_fresh-All :
    (m : String) (es : List Entry) → is_fresh m es ≡ true → All (λ e. is_member m e ≡ false) es
is_fresh-All m [] h = tt
is_fresh-All m (e ∷ es) h = (ground arith, is_fresh-All m es (ground arith))

All-everywhere : (P : Entry → Type 0) (es : List Entry) → ((e : Entry) → P e) → All P es
All-everywhere P [] f = tt
All-everywhere P (e ∷ es) f = (f e, All-everywhere P es f)

module _ {V : Type 0} (R : Redis V) (identifier : String) (limit window_ms : ℕ) where
  open R use {
    Db, zrange, zadd, zremrangebyscore, expire, lapse, zrange-zadd, zrange-zremrangebyscore,
    zrange-expire, zrange-lapse,
  }

  -- The calls for one identifier, the newest first, with the time of the last step and the database
  -- after it. Others write elsewhere, and Redis drops the key when its time to live is over.
  pub data History : List Entry → ℕ → Db → Type 0 where
    start : (db : Db) → zrange (window_key identifier) db ≡ [] → History [] 0 db
    call :
        (m : String) (now : ℕ) {calls : List Entry} {last : ℕ} {db : Db}
        → History calls last db
        → last ≤ now
        → is_fresh m calls ≡ true
        → History
            ((m, now) ∷ calls)
            now
            (sliding_window R identifier limit window_ms now m ran db).db
    elsewhere :
        (after : Db) {calls : List Entry} {last : ℕ} {db : Db}
        → History calls last db
        → zrange (window_key identifier) after ≡ zrange (window_key identifier) db
        → History calls last after
    expired :
        (now : ℕ) {calls : List Entry} {last : ℕ} {db : Db}
        → History calls last db
        → last + 1000 * ceil_div window_ms 1000 ≤ now
        → History calls now (lapse (window_key identifier) db)

  -- The set holds the live calls, in some order.
  abbrev Tracks : List Entry → ℕ → Db → Type 0
  Tracks calls last db =
      (p : Entry → Bool)
      → count p (zrange (window_key identifier) db) ≡ count p (keep (is_live window_ms last) calls)

  purged-count :
      (key : String) (now : ℕ) (db : Db) (p : Entry → Bool)
      → count p
          (zrange key (if leb window_ms now then zremrangebyscore key (now - window_ms) db else db))
        ≡ count (λ e. is_live window_ms now e && p e) (zrange key db)
  purged-count key now db p = elim (Bool-cases (leb window_ms now)) [
    | inl some_old ↦
        rw (some_old, zrange-zremrangebyscore key (now - window_ms) db)
          (count-keep p (λ e. ltb (now - window_ms) e.1) (zrange key db)
            ∙ count-agree (λ e. ltb (now - window_ms) e.1 && p e)
                (λ e. is_live window_ms now e && p e) (zrange key db)
                (All-everywhere
                  (λ e. (ltb (now - window_ms) e.1 && p e) ≡ (is_live window_ms now e && p e))
                  (zrange key db) (λ e. ground arith)))
    | inr none_old ↦ rw none_old (
        count-agree p (λ e. is_live window_ms now e && p e) (zrange key db)
          (All-everywhere (λ e. p e ≡ (is_live window_ms now e && p e)) (zrange key db)
            (λ e. ground arith)))
  ]

  added-count :
      (key m : String) (now : ℕ) (db : Db) (p : Entry → Bool)
      → count p (zrange key (zadd key now m db))
        ≡ count p ((m, now) ∷ keep (λ e. not (is_member m e)) (zrange key db))
  added-count key m now db p =
      let (pre, post, without, placed, low, high) = zrange-zadd key now m db in
      rw (placed, without)
        (ground (arith, count-append p pre post, count-append p pre ((m, now) ∷ post)))

  -- Purging after an insertion counts what is live of the set before, and the new call.
  commands-count :
      (m : String) (now : ℕ) (db : Db) (p : Entry → Bool)
      → count p (
          zrange
            (window_key identifier)
            (window_commands R (window_key identifier) window_ms now m db))
        ≡ count
            (λ e. is_live window_ms now e && p e)
            ((m, now) ∷ keep (λ e. not (is_member m e)) (zrange (window_key identifier) db))
  unfolding window_commands
  commands-count m now db p =
      let key = window_key identifier in
      let added = zadd key now m db in
      let live : Entry → Bool = λ e. is_live window_ms now e && p e in
      let purged : Db =
        if leb window_ms now then zremrangebyscore key (now - window_ms) added else added in
      ap (count p) (zrange-expire key key (ceil_div window_ms 1000) purged)
      ∙ purged-count key now added p
      ∙ added-count key m now db live

  call-Tracks :
      (m : String) (now : ℕ) (calls : List Entry) (last : ℕ) (db : Db)
      → Tracks calls last db
      → last ≤ now
      → is_fresh m calls ≡ true
      → Tracks ((m, now) ∷ calls) now (window_commands R (window_key identifier) window_ms now m db)
  call-Tracks m now calls last db inv le fresh p =
      let key = window_key identifier in
      let live : Entry → Bool = λ e. is_live window_ms now e && p e in
      let new : Entry → Bool = λ e. not (is_member m e) in
      let of_calls : count (λ e. new e && live e) (keep (is_live window_ms last) calls)
          ≡ count p (keep (is_live window_ms now) calls) =
        count-keep (λ e. new e && live e) (is_live window_ms last) calls
        ∙ count-agree (λ e. is_live window_ms last e && (new e && live e)) live calls
            (All-map (λ e. is_member m e ≡ false)
              (λ e. (is_live window_ms last e && (new e && live e)) ≡ live e) calls
              (λ e h. ground arith) (is_fresh-All m calls fresh))
        ∙ sym (count-keep p (is_live window_ms now) calls) in
      let of_set : count live (keep new (zrange key db))
          ≡ count p (keep (is_live window_ms now) calls) =
        count-keep live new (zrange key db) ∙ inv (λ e. new e && live e) ∙ of_calls in
      commands-count m now db p ∙ ground (arith, of_set)

  -- The time to live outlasts the window.
  window-le-ttl : window_ms ≤ 1000 * ceil_div window_ms 1000
  unfolding ceil_div
  window-le-ttl = omega arith

  history-Before :
      {calls : List Entry} {last : ℕ} {db : Db}
      → History calls last db
      → All (λ e. e.1 ≤ last) calls
  history-Before (start db none_yet) = tt
  history-Before (call m now {calls} {last} h le fresh) = (
    omega arith,
    All-map (λ e. e.1 ≤ last) (λ e. e.1 ≤ now) calls (λ e k. omega arith) (history-Before h),
  )
  history-Before (elsewhere after h same) = history-Before h
  history-Before (expired now {calls} {last} h gone) =
      All-map (λ e. e.1 ≤ last) (λ e. e.1 ≤ now) calls (λ e k. omega arith) (history-Before h)

  history-Tracks :
      {calls : List Entry} {last : ℕ} {db : Db} → History calls last db → Tracks calls last db
  unfolding sliding_window
  history-Tracks (start db none_yet) p = ap (count p) none_yet
  history-Tracks (call m now {calls} {last} {db} h le fresh) p =
      call-Tracks m now calls last db (history-Tracks h) le fresh p
  history-Tracks (elsewhere after h same) p = ap (count p) same ∙ history-Tracks h p
  history-Tracks (expired now {calls} {last} {db} h gone) p =
      ap (count p) (zrange-lapse (window_key identifier) db)
      ∙ sym (
          count-keep p (is_live window_ms now) calls
          ∙ count-agree (λ e. is_live window_ms now e && p e) (λ e. false) calls
              (All-map (λ e. e.1 ≤ last) (λ e. (is_live window_ms now e && p e) ≡ false) calls
                (λ e k. ground (arith, window-le-ttl)) (history-Before h))
          ∙ count-nothing calls)

  -- After any history of calls with ids of their own, a call is allowed exactly when the calls with
  -- a time in `(now - window_ms, now]`, itself included, are at most `limit`; `remaining` is what is
  -- left of the limit, and a refused call records a hit. The key's time to live never forgets a
  -- call that counts.
  pub sliding_window-counts :
      {calls : List Entry} {last : ℕ} {db : Db}
      → History calls last db
      → (now : ℕ) → last ≤ now
      → (m : String) → is_fresh m calls ≡ true
      → let live = length (keep (is_live window_ms now) ((m, now) ∷ calls)) in
        let outcome = sliding_window R identifier limit window_ms now m ran db in
        (outcome.verdict.allowed ≡ leb live limit)
        × (outcome.verdict.remaining ≡ limit - live)
        × (outcome.hits ≡ (if leb live limit then [] else "sliding_window" ∷ []))
  unfolding sliding_window
  sliding_window-counts {calls} {last} {db} h now le m fresh =
      let stored =
        zrange (window_key identifier)
          (window_commands R (window_key identifier) window_ms now m db) in
      let seen : length stored ≡ length (keep (is_live window_ms now) ((m, now) ∷ calls)) =
        sym (count-everything stored)
        ∙ call-Tracks m now calls last db (history-Tracks h) le fresh (λ e. true)
        ∙ count-everything (keep (is_live window_ms now) ((m, now) ∷ calls)) in
      rw seen (ground arith, refl, ground arith)
