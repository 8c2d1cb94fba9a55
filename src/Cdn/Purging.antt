-- ===== src/Cdn/Purging.antt =====
-- What purges find among the keys that the CDN's client writes: the keys carry its prefix, and the
-- patterns do not.
use Prim.Native.String.{◌++◌ as str_append}
use text.Mathlib.TextLemmas.{append_assoc, append-nil, cons-append}
use edge_sphere_self_hosted.Prelude.{
  ℕ, ◌≡◌, refl, sym, ap, ◌∙◌, ◌⊎◌, List, [], ◌∷◌, ◌++◌, Bool, true, false, Option, none, some,
  String, str_eq, if◌then◌else◌, keep, take, All, arith, Bool-cases, inl, inr,
}
use edge_sphere_self_hosted.Prelude.Texts.{starts_with, starts_apart}
use edge_sphere_self_hosted.Redis.{Redis}
use edge_sphere_self_hosted.Cdn.{
  Stored, Edge, physical, key_prefix, purge_pattern, del_keys, delete_pattern, purge_cache,
}
use edge_sphere_self_hosted.Cdn.Invalidation.{
  PurgeEvent, PurgeRecord, Purges, Purge, purge_file, purge_bucket, purge_prefix, purge_all,
  pattern_of, type_of, details_of, file_pattern, bucket_pattern, prefix_pattern, execute_purge,
  purge,
}

keep-nothing : (p : String → Bool) (ks : List String) → All (λ k. p k ≡ false) ks → keep p ks ≡ []
keep-nothing p [] h = refl
keep-nothing p (k ∷ ks) (h, hs) = ground (arith, keep-nothing p ks hs)

-- What Redis documents of a pattern: what stands before its first wildcard is matched as it stands.
abbrev pub IsLiteral : ((pattern key : String) → Bool) → Type 0
IsLiteral matches =
    (rest key : String)
    → matches (str_append "cdn:*" rest) key ≡ true
    → starts_with "cdn:" key ≡ true

-- A key that the CDN's client writes, or one of another service, which does not start with `cdn:`.
abbrev pub IsWritten : String → Type 0
IsWritten k = ((name : String) × (k ≡ physical name)) ⊎ (starts_with "cdn:" k ≡ false)

abbrev pub AllWritten : List String → Type 0
AllWritten = All IsWritten

-- The prefix of the client stands in front of what the patterns start with.
physical-apart : (name : String) → starts_with "cdn:" (physical name) ≡ false
unfolding physical key_prefix
physical-apart name = rw (cons-append "e" "dgesphere:" name) refl

written-apart : (k : String) → IsWritten k → starts_with "cdn:" k ≡ false
written-apart k (inl (name, same)) = ap (starts_with "cdn:") same ∙ physical-apart name
written-apart k (inr other) = other

module _ (R : Redis Stored) (matches : (pattern key : String) → Bool)
    (literal : IsLiteral matches) where
  open R use {Db, scan}

  unmatched :
      (rest : String) (ks : List String)
      → AllWritten ks
      → All (λ k. matches (str_append "cdn:*" rest) k ≡ false) ks
  unmatched rest [] h = tt
  unmatched rest (k ∷ ks) (h, hs) = (
    elim (Bool-cases (matches (str_append "cdn:*" rest) k)) [
      | inl hit ↦
          let start = literal rest k hit in let apart = written-apart k h in absurd (ground arith)
      | inr miss ↦ miss
    ],
    unmatched rest ks hs,
  )

  nothing_found :
      (rest : String) (db : Db)
      → AllWritten (scan db)
      → keep (matches (str_append "cdn:*" rest)) (scan db) ≡ []
  nothing_found rest db h =
      keep-nothing (matches (str_append "cdn:*" rest)) (scan db) (unmatched rest (scan db) h)

  purge_pattern-rest :
      (bucket : String) (key : Option String)
      → (rest : String) × (purge_pattern bucket key ≡ str_append "cdn:*" rest)
  unfolding purge_pattern
  purge_pattern-rest bucket none = (_, append_assoc "cdn:*" ":" (str_append bucket ":*"))
  purge_pattern-rest bucket (some key) = elim (Bool-cases (str_eq key "")) [
    | inl blank ↦ rw blank (_, append_assoc "cdn:*" ":" (str_append bucket ":*"))
    | inr given ↦
        rw given
          (_, append_assoc "cdn:*" ":" (str_append bucket (str_append ":" (str_append key ":*"))))
  ]

  whole_pattern :
      (t : String)
      → (rest : String) × ((if str_eq (str_append "cdn:*:" t) "*"
            then "cdn:*"
            else str_append "cdn:*:" t)
          ≡ str_append "cdn:*" rest)
  whole_pattern t =
      let apart : str_eq (str_append "cdn:*:" t) "*" ≡ false =
        rw (cons-append "c" "dn:*:" t) (starts_apart "c" "*" (str_append "dn:*:" t) "" refl) in
      rw apart (str_append ":" t, append_assoc "cdn:*" ":" t)

  -- The pattern that a purge scans for.
  used_pattern-rest :
      (p : Purge)
      → (rest : String) × ((if str_eq (pattern_of p) "*" then "cdn:*" else pattern_of p)
          ≡ str_append "cdn:*" rest)
  unfolding pattern_of file_pattern bucket_pattern prefix_pattern
  used_pattern-rest (purge_file bucket key) =
      whole_pattern (str_append bucket (str_append "/" (str_append key ":*")))
  used_pattern-rest (purge_bucket bucket) = whole_pattern (str_append bucket ":*")
  used_pattern-rest (purge_prefix bucket prefix_of_key) =
      whole_pattern (str_append bucket (str_append "/" (str_append prefix_of_key "*")))
  used_pattern-rest purge_all = ("", sym (append-nil "cdn:*"))

  -- Where every key of the database is one that the CDN's client wrote, or one of another service
  -- that does not start with `cdn:`, and a pattern matches what stands before its first wildcard as
  -- it stands, a purge by the CDN finds no key: it leaves both caches as they are and counts 0.
  pub purge_cache-keeps :
      (bucket : String) (key : Option String) (s : Edge Db)
      → AllWritten (scan s.db)
      → purge_cache R matches bucket key s ≡ (s, 0)
  unfolding purge_cache delete_pattern del_keys
  purge_cache-keeps bucket key s h =
      let (rest, shape) = purge_pattern-rest bucket key in
      rw (shape, nothing_found rest s.db h) refl

  -- Where every key of the database is one that the CDN's client wrote, or one of another service
  -- that does not start with `cdn:`, and a pattern matches what stands before its first wildcard as
  -- it stands, each of the four purges of the cache service deletes no key, publishes its event,
  -- reports 0 deleted keys, and puts that report in front of the history of at most 100.
  pub purge-keeps :
      (p : Purge) (purge_id : String) (timestamp : ℕ) (s : Purges Db)
      → AllWritten (scan s.db)
      → let event : PurgeEvent = record {
        purge_id = purge_id;
        timestamp = timestamp;
        type = type_of p;
        details = details_of p;
      } in
        let report : PurgeRecord = record { event = event; keys_deleted = 0 } in
        purge R matches p purge_id timestamp s ≡ (
          record {
            db = s.db;
            published = s.published ++ event ∷ [];
            history = take 100 (report ∷ s.history);
          },
          report,
        )
  unfolding purge execute_purge del_keys
  purge-keeps p purge_id timestamp s h =
      let (rest, shape) = used_pattern-rest p in rw (shape, nothing_found rest s.db h) refl
