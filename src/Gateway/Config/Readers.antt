-- ===== src/Gateway/Config/Readers.antt =====
-- What the services read after a settings request.
use edge_sphere_self_hosted.Prelude.{
  ℕ, ◌≤◌, ◌≡◌, refl, ap, ◌∙◌, Option, none, some, true, false, ◌||◌, if◌then◌else◌, is_some,
  or_else, arith, String, str_eq, eq_iff, eq_refl, Bool-cases, inl, inr, ◌⊎◌,
}
use edge_sphere_self_hosted.Prelude.Maps.{lookup, insert, lookup-insert}
use edge_sphere_self_hosted.Cdn.{physical, key_prefix}
use edge_sphere_self_hosted.Gateway.Config.{
  Numbers, Input, number, other, Updates, ConfigFields, Hashes, config_key, hgetall, written,
  hset_fields, hset, ok, forbidden, bad_request, read_number, get_config, get_rate_limit_per_ip,
  get_max_file_size_mb, get_configured_ttl_seconds, text_of, fields_of, update_config, is_outside,
  out_of_range, patch_config,
}

hgetall-hset :
    (key : String) (given : ConfigFields) (db : Hashes)
    → hgetall key (hset key given db) ≡ hset_fields given (hgetall key db)
unfolding hgetall hset
hgetall-hset key given db =
    let merged = hset_fields given (hgetall key db) in
    let there : lookup key (insert key merged db) ≡ some merged =
      lookup-insert key key merged db ∙ rw (eq_refl key) refl in
    ap
      (λ o. elim o [
        | none ↦ record {
          cache_ttl_seconds = none;
          max_file_size_mb = none;
          rate_limit_per_ip = none;
        }
        | some fields ↦ fields
      ])
      there

-- A number that was sent is in its range, and another value compares as neither below nor above.
abbrev pub IsInside : (low high : ℕ) → Option Input → Type 0
IsInside low high none = Unit
IsInside low high (some (number n)) = (low ≤ n) × (n ≤ high)
IsInside low high (some (other t less more)) = (less low ≡ false) × (more high ≡ false)

outside-IsInside :
    (low high : ℕ) (sent : Option Input) → is_outside low high sent ≡ false → IsInside low high sent
unfolding is_outside
outside-IsInside low high none h = tt
outside-IsInside low high (some (number n)) h = (ground arith, ground arith)
outside-IsInside low high (some (other t less more)) h = (ground arith, ground arith)

out_of_range-IsInside :
    (updates : Updates)
    → out_of_range updates ≡ false
    → IsInside 1 86400 updates.cache_ttl_seconds
      × IsInside 1 10240 updates.max_file_size_mb
      × IsInside 1 100000 updates.rate_limit_per_ip
unfolding out_of_range
out_of_range-IsInside updates h = (
  outside-IsInside 1 86400 updates.cache_ttl_seconds (ground arith),
  outside-IsInside 1 10240 updates.max_file_size_mb (ground arith),
  outside-IsInside 1 100000 updates.rate_limit_per_ip (ground arith),
)

module _ (J : Numbers) where
  -- What a reader with a default makes of a setting that was sent, and of what it read before where
  -- none was.
  abbrev pub read_after : (default : ℕ) → Option Input → (before : J.Parsed) → J.Parsed
  read_after default none before = before
  read_after default (some (number n)) before = J.natural n
  read_after default (some (other t less more)) before =
      if str_eq t "" then J.natural default else J.parse_int t

  written-reads :
      (default : ℕ) (new : Option Input) (old : Option String)
      → read_number J default (written (text_of J new) old)
        ≡ read_after default new (read_number J default old)
  unfolding read_number written text_of
  written-reads default none old = refl
  written-reads default (some (number n)) old = rw (J.digits-given n) (J.parse_int-digits n)
  written-reads default (some (other t less more)) old = refl

  written-none :
      (new : Option Input) (old : Option String)
      → is_some new ≡ false
      → written (text_of J new) old ≡ old
  unfolding written text_of
  written-none none old h = refl
  written-none (some input) old h = absurd cc

  -- The hash after an update: each field that was sent is written.
  update_config-fields :
      (updates : Updates) (db : Hashes)
      → hgetall config_key (update_config J updates db).0
        ≡ hset_fields (fields_of J updates) (hgetall config_key db)
  unfolding update_config hset_fields fields_of
  update_config-fields updates db =
      elim (Bool-cases (
        is_some updates.cache_ttl_seconds
        || (is_some updates.max_file_size_mb || is_some updates.rate_limit_per_ip))) [
          | inl given ↦ simp given (hgetall-hset config_key (fields_of J updates) db)
          | inr empty ↦
              let raw = hgetall config_key db in
              simp (
                empty,
                written-none updates.cache_ttl_seconds raw.cache_ttl_seconds (ground arith),
                written-none updates.max_file_size_mb raw.max_file_size_mb (ground arith),
                written-none updates.rate_limit_per_ip raw.rate_limit_per_ip (ground arith),
              )
        ]

  -- What each service reads after an update.
  update_config-reads :
      (updates : Updates) (db : Hashes) (d e : ℕ)
      → let after = (update_config J updates db).0 in
        (get_rate_limit_per_ip J after
          ≡ read_after 100 updates.rate_limit_per_ip (get_rate_limit_per_ip J db))
        × (get_max_file_size_mb J true d after
            ≡ read_after d updates.max_file_size_mb (get_max_file_size_mb J true d db))
        × (get_configured_ttl_seconds J e after
            ≡ read_after e updates.cache_ttl_seconds (get_configured_ttl_seconds J e db))
  unfolding get_rate_limit_per_ip get_max_file_size_mb get_configured_ttl_seconds hset_fields
      fields_of config_key physical key_prefix
  update_config-reads updates db d e =
      let raw = hgetall config_key db in
      let same = update_config-fields updates db in
      (
        ap (λ fields. read_number J 100 fields.rate_limit_per_ip) same
            ∙ written-reads 100 updates.rate_limit_per_ip raw.rate_limit_per_ip,
        ap (λ fields. read_number J d fields.max_file_size_mb) same
            ∙ written-reads d updates.max_file_size_mb raw.max_file_size_mb,
        ap (λ fields. read_number J e fields.cache_ttl_seconds) same
            ∙ written-reads e updates.cache_ttl_seconds raw.cache_ttl_seconds,
      )

  update_config-config :
      (updates : Updates) (db : Hashes)
      → (update_config J updates db).1 ≡ get_config J (update_config J updates db).0
  unfolding update_config
  update_config-config updates db = refl

  -- A settings request that is refused changes nothing. One that succeeds came from an admin, its
  -- numbers are in their ranges and its other values are neither below nor above them, as NaN is,
  -- and each of the three services reads, under the key of its own client, the number that was sent,
  -- what parseInt makes of the text of another value, or its default for an empty text, and without
  -- a setting what it read before.
  pub patch_config-reads :
      (role : Option String) (updates : Updates) (db : Hashes) (d e : ℕ)
      → let (after, answer) = patch_config J role updates db in
        ((after ≡ db) × ((answer ≡ forbidden) ⊎ (answer ≡ bad_request)))
        ⊎ ((answer ≡ ok (get_config J after))
            × (or_else role "" ≡ "admin")
            × (IsInside 1 86400 updates.cache_ttl_seconds
                × IsInside 1 10240 updates.max_file_size_mb
                × IsInside 1 100000 updates.rate_limit_per_ip)
            × ((get_rate_limit_per_ip J after
                  ≡ read_after 100 updates.rate_limit_per_ip (get_rate_limit_per_ip J db))
                × (get_max_file_size_mb J true d after
                    ≡ read_after d updates.max_file_size_mb (get_max_file_size_mb J true d db))
                × (get_configured_ttl_seconds J e after
                    ≡ read_after e updates.cache_ttl_seconds (get_configured_ttl_seconds J e db))))
  unfolding patch_config
  patch_config-reads role updates db d e = elim (Bool-cases (str_eq (or_else role "") "admin")) [
    | inr stranger ↦ simp stranger (inl (refl, inl refl))
    | inl admin ↦ elim (Bool-cases (out_of_range updates)) [
      | inl outside ↦ simp (admin, outside) (inl (refl, inr refl))
      | inr inside ↦
          simp (admin, inside)
            (inr (
              ap (λ c. ok c) (update_config-config updates db),
              (eq_iff (or_else role "") "admin").0 admin,
              out_of_range-IsInside updates inside,
              update_config-reads updates db d e,
            ))
    ]
  ]
