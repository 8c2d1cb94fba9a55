-- ===== src/Redis.antt =====
-- What the services rely on of Redis: plain values, hashes of numbers, and sorted sets, as the
-- documentation of the commands describes them. A client takes the record as a parameter; Memory
-- gives a value of it.
-- A plain value is a `V`: what the client makes the text of, as an object for its JSON text. Hashes
-- and scores keep the numbers whose texts the services store and parse.
pub mod Memory
use edge_sphere_self_hosted.Prelude.{
  ℕ, ◌≤◌, ◌≡◌, Bool, true, false, not, Option, none, some, List, [], ◌∷◌, ◌++◌, String, str_eq, ltb,
  if◌then◌else◌, keep, any, All,
}

-- A member of a sorted set and its score.
abbrev pub Entry : Type 0
Entry = String × ℕ

abbrev pub is_member : String → Entry → Bool
is_member m e = str_eq e.0 m

pub record Redis (V : Type 0) : Type 1 where
  pub Db : Type 0
  -- GET, SET and DEL on plain values.
  pub get : String → Db → Option V
  pub set : String → V → Db → Db
  pub del : String → Db → Db
  pub get-set :
      (k j : String) (v : V) (db : Db)
      → get j (set k v db) ≡ (if str_eq k j then some v else get j db)
  pub get-del :
      (k j : String) (db : Db) → get j (del k db) ≡ (if str_eq k j then none else get j db)
  -- SCAN to its end lists every key that holds a plain value the whole time.
  pub scan : Db → List String
  pub get-scan :
      (k : String) (v : V) (db : Db) → get k db ≡ some v → any (λ j. str_eq j k) (scan db) ≡ true
  -- HMGET and HMSET on two fields of a hash that the services always write together.
  pub hmget : String → Db → Option (ℕ × ℕ)
  pub hmset : String → ℕ × ℕ → Db → Db
  pub hmget-hmset :
      (k j : String) (v : ℕ × ℕ) (db : Db)
      → hmget j (hmset k v db) ≡ (if str_eq k j then some v else hmget j db)
  -- A sorted set in the order of its scores, as ZRANGE 0 -1 lists it; ZADD, ZREM, and
  -- ZREMRANGEBYSCORE from 0.
  pub zrange : String → Db → List Entry
  pub zadd : String → ℕ → String → Db → Db
  pub zrem : String → String → Db → Db
  pub zremrangebyscore : String → ℕ → Db → Db
  pub zrange-zadd :
      (k : String) (score : ℕ) (m : String) (db : Db)
      → (pre post : List Entry) × (keep (λ e. not (is_member m e)) (zrange k db) ≡ pre ++ post)
        × (zrange k (zadd k score m db) ≡ pre ++ (m, score) ∷ post)
        × All (λ e. e.1 ≤ score) pre
        × All (λ e. score ≤ e.1) post
  pub zrange-zrem :
      (k m : String) (db : Db)
      → zrange k (zrem k m db) ≡ keep (λ e. not (is_member m e)) (zrange k db)
  pub zrange-zremrangebyscore :
      (k : String) (top : ℕ) (db : Db)
      → zrange k (zremrangebyscore k top db) ≡ keep (λ e. ltb top e.1) (zrange k db)
  -- The commands on sorted sets leave other sets, and all plain values, as they are.
  pub zrange-zadd_other :
      (k j : String) (score : ℕ) (m : String) (db : Db)
      → str_eq k j ≡ false
      → zrange j (zadd k score m db) ≡ zrange j db
  pub zrange-zrem_other :
      (k j m : String) (db : Db) → str_eq k j ≡ false → zrange j (zrem k m db) ≡ zrange j db
  pub zrange-zremrangebyscore_other :
      (k j : String) (top : ℕ) (db : Db)
      → str_eq k j ≡ false
      → zrange j (zremrangebyscore k top db) ≡ zrange j db
  pub get-zadd :
      (k j : String) (score : ℕ) (m : String) (db : Db) → get j (zadd k score m db) ≡ get j db
  pub get-zrem : (k j m : String) (db : Db) → get j (zrem k m db) ≡ get j db
  -- SET and DEL replace or delete what their key holds, and nothing else.
  pub zrange-set :
      (k j : String) (v : V) (db : Db) → str_eq k j ≡ false → zrange j (set k v db) ≡ zrange j db
  pub zrange-del : (k j : String) (db : Db) → str_eq k j ≡ false → zrange j (del k db) ≡ zrange j db
  -- EXPIRE gives a key a time to live and leaves what it holds; when that time is over, the key is
  -- gone.
  pub expire : String → ℕ → Db → Db
  pub lapse : String → Db → Db
  pub get-expire : (k j : String) (seconds : ℕ) (db : Db) → get j (expire k seconds db) ≡ get j db
  pub hmget-expire :
      (k j : String) (seconds : ℕ) (db : Db) → hmget j (expire k seconds db) ≡ hmget j db
  pub zrange-expire :
      (k j : String) (seconds : ℕ) (db : Db) → zrange j (expire k seconds db) ≡ zrange j db
  pub get-lapse : (k : String) (db : Db) → get k (lapse k db) ≡ none
  pub hmget-lapse : (k : String) (db : Db) → hmget k (lapse k db) ≡ none
  pub zrange-lapse : (k : String) (db : Db) → zrange k (lapse k db) ≡ []
