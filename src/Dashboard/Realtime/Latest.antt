-- ===== src/Dashboard/Realtime/Latest.antt =====
-- The hooks keep the latest items, the newest first.
use mathlib.Core.List.{append_assoc, append-nil}
use edge_sphere_self_hosted.Prelude.{
  ℕ, zero, suc, ◌≡◌, refl, sym, ap, ◌∙◌, List, [], ◌∷◌, ◌++◌, Option, none, some, take,
  take-append-take, arith,
}
use edge_sphere_self_hosted.Live.{Packet}
use edge_sphere_self_hosted.Dashboard.Realtime.{show, show_all}

module _ {A : Type 0} where
  abbrev pub with_found : Option A → List A → List A
  with_found none items = items
  with_found (some item) items = item ∷ items

  -- The items that packets bring, in their order.
  abbrev pub found_in : (pick : Packet → Option A) → List Packet → List A
  found_in pick [] = []
  found_in pick (packet ∷ packets) = with_found (pick packet) (found_in pick packets)

  abbrev pub newest_first : List A → List A
  newest_first [] = []
  newest_first (item ∷ items) = newest_first items ++ item ∷ []

  show-take :
      (limit : ℕ) (found : Option A) (prev : List A)
      → show limit found (take limit prev) ≡ take limit (with_found found prev)
  unfolding show
  show-take limit none prev = refl
  show-take limit (some item) prev = take-append-take limit limit (item ∷ []) prev (omega arith)

  newest-with_found :
      (found : Option A) (items prev : List A)
      → newest_first items ++ with_found found prev ≡ newest_first (with_found found items) ++ prev
  newest-with_found none items prev = refl
  newest-with_found (some item) items prev =
      sym (append_assoc (newest_first items) (item ∷ []) prev)

  show_all-take :
      (pick : Packet → Option A) (limit : ℕ) (packets : List Packet) (prev : List A)
      → show_all pick limit packets (take limit prev)
        ≡ take limit (newest_first (found_in pick packets) ++ prev)
  unfolding show_all
  show_all-take pick limit [] prev = refl
  show_all-take pick limit (packet ∷ packets) prev =
      ap (show_all pick limit packets) (show-take limit (pick packet) prev)
      ∙ show_all-take pick limit packets (with_found (pick packet) prev)
      ∙ ap (take limit) (newest-with_found (pick packet) (found_in pick packets) prev)

with_found-append :
    {A : Type 0} (found : Option A) (xs ys : List A)
    → with_found found (xs ++ ys) ≡ with_found found xs ++ ys
with_found-append none xs ys = refl
with_found-append (some item) xs ys = refl

take_none : {A : Type 0} (limit : ℕ) → take {A = A} limit [] ≡ []
take_none zero = refl
take_none (suc limit) = refl

pub found_in-append :
    {A : Type 0} (pick : Packet → Option A) (packets : List Packet) (packet : Packet)
    → found_in pick (packets ++ packet ∷ []) ≡ found_in pick packets ++ with_found (pick packet) []
found_in-append pick [] packet = refl
found_in-append pick (first ∷ packets) packet =
    ap (with_found (pick first)) (found_in-append pick packets packet)
    ∙ with_found-append (pick first) (found_in pick packets) (with_found (pick packet) [])

-- A list of the dashboard holds the latest items of the packets, up to its limit, the newest first.
pub show_all-latest :
    {A : Type 0} (pick : Packet → Option A) (limit : ℕ) (packets : List Packet)
    → show_all pick limit packets [] ≡ take limit (newest_first (found_in pick packets))
show_all-latest {A = A} pick limit packets =
    ap (show_all pick limit packets) (sym (take_none {A = A} limit))
    ∙ show_all-take pick limit packets []
    ∙ ap (take limit) (append-nil (newest_first (found_in pick packets)))
