-- ===== src/Redis/Memory.antt =====
-- A Redis in memory, which meets the laws: a sorted set is kept as a list of entries and put in
-- the order of the scores when it is read.
mod Order
use edge_sphere_self_hosted.Prelude.{
  ℕ, ◌≤◌, ◌≡◌, refl, sym, ap, ◌∙◌, Bool, true, false, not, Option, none, some, List, [], ◌∷◌, ◌++◌,
  String, str_eq, eq_refl, ltb, if◌then◌else◌, keep, any, map, All, or_else, arith,
}
use edge_sphere_self_hosted.Prelude.Maps.{lookup, insert, erase, lookup-insert, lookup-erase}
use edge_sphere_self_hosted.Redis.{Redis, Entry, is_member}
use edge_sphere_self_hosted.Redis.Memory.Order.{sort, keep-sort, sort-zadd}

pub record Store (V : Type 0) : Type 0 where
  pub values : List (String × V)
  pub hashes : List (String × (ℕ × ℕ))
  pub sets : List (String × List Entry)

abbrev pub others : String → Entry → Bool
others m e = not (is_member m e)

module _ {V : Type 0} where
  abbrev pub entries : String → Store V → List Entry
  entries k s = or_else (lookup k s.sets) []

  abbrev pub put_entries : String → List Entry → Store V → Store V
  put_entries k es s = record s { sets = insert k es s.sets }

  pub entries-put_entries :
      (k j : String) (es : List Entry) (s : Store V)
      → entries j (put_entries k es s) ≡ (if str_eq k j then es else entries j s)
  entries-put_entries k j es s = ground (arith, lookup-insert k j es s.sets)

  pub entries-put_entries_same :
      (k : String) (es : List Entry) (s : Store V) → entries k (put_entries k es s) ≡ es
  entries-put_entries_same k es s = ground (arith, entries-put_entries k k es s, eq_refl k)

  pub entries-put_entries_other :
      (k j : String) (es : List Entry) (s : Store V)
      → str_eq k j ≡ false
      → entries j (put_entries k es s) ≡ entries j s
  entries-put_entries_other k j es s h = ground (arith, entries-put_entries k j es s)

pub lookup-erase_same :
    {V : Type 0} → (k : String) (m : List (String × V)) → lookup k (erase k m) ≡ none
lookup-erase_same k m = ground (arith, lookup-erase k k m, eq_refl k)

pub lookup-any :
    {V : Type 0} (k : String) (v : V) (m : List (String × V))
    → lookup k m ≡ some v
    → any (λ j. str_eq j k) (map (λ e. e.0) m) ≡ true
lookup-any k v [] h = cc
lookup-any k v ((j, w) ∷ m) h = ground (arith, lookup-any k v m)

abbrev pub memory : (V : Type 0) → Redis V
memory V = record {
  Db = Store V;
  scan = λ s. map (λ e. e.0) s.values;
  get-scan = λ k v s. lookup-any k v s.values;
  get = λ k s. lookup k s.values;
  set = λ k v s. record s { values = insert k v s.values };
  del = λ k s. record s { values = erase k s.values };
  get-set = λ k j v s. lookup-insert k j v s.values;
  get-del = λ k j s. lookup-erase k j s.values;
  hmget = λ k s. lookup k s.hashes;
  hmset = λ k v s. record s { hashes = insert k v s.hashes };
  hmget-hmset = λ k j v s. lookup-insert k j v s.hashes;
  zrange = λ k s. sort (entries k s);
  zadd = λ k score m s. put_entries k ((m, score) ∷ keep (others m) (entries k s)) s;
  zrem = λ k m s. put_entries k (keep (others m) (entries k s)) s;
  zremrangebyscore = λ k top s. put_entries k (keep (λ e. ltb top e.1) (entries k s)) s;
  zrange-zadd = λ k score m s.
      rw (entries-put_entries_same k ((m, score) ∷ keep (others m) (entries k s)) s)
        (sort-zadd (m, score) (others m) (entries k s));
  zrange-zrem = λ k m s.
      ap sort (entries-put_entries_same k (keep (others m) (entries k s)) s)
      ∙ sym (keep-sort (others m) (entries k s));
  zrange-zremrangebyscore = λ k top s.
      ap sort (entries-put_entries_same k (keep (λ e. ltb top e.1) (entries k s)) s)
      ∙ sym (keep-sort (λ e. ltb top e.1) (entries k s));
  zrange-zadd_other = λ k j score m s h.
      ap sort (entries-put_entries_other k j ((m, score) ∷ keep (others m) (entries k s)) s h);
  zrange-zrem_other =
      λ k j m s h. ap sort (entries-put_entries_other k j (keep (others m) (entries k s)) s h);
  zrange-zremrangebyscore_other = λ k j top s h.
      ap sort (entries-put_entries_other k j (keep (λ e. ltb top e.1) (entries k s)) s h);
  get-zadd = λ k j score m s. refl;
  get-zrem = λ k j m s. refl;
  zrange-set = λ k j v s h. refl;
  zrange-del = λ k j s h. refl;
  expire = λ k seconds s. s;
  lapse =
      λ k s. record { values = erase k s.values; hashes = erase k s.hashes; sets = erase k s.sets };
  get-expire = λ k j seconds s. refl;
  hmget-expire = λ k j seconds s. refl;
  zrange-expire = λ k j seconds s. refl;
  get-lapse = λ k s. lookup-erase_same k s.values;
  hmget-lapse = λ k s. lookup-erase_same k s.hashes;
  zrange-lapse = λ k s. ap (λ o. sort (or_else o [])) (lookup-erase_same k s.sets);
}

abbrev pub empty : {V : Type 0} → Redis.Db (memory V)
empty = record { values = []; hashes = []; sets = [] }
