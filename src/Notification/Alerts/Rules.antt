-- ===== src/Notification/Alerts/Rules.antt =====
-- createRule, updateRule, deleteRule and the pages of AlertsService, with the handlers of
-- alerts/alerts.controller.ts that call them.
use edge_sphere_self_hosted.Prelude.{
  ◌≡◌, refl, Bool, true, false, not, Option, none, some, List, [], ◌∷◌, ◌++◌, String, str_eq,
  eq_iff, eq_refl, if◌then◌else◌, or_else, find, keep, arith,
}
use edge_sphere_self_hosted.Prelude.Ratios.{Ratio}
use edge_sphere_self_hosted.Notification.Paging.{Page, PageArg, query_page}
use edge_sphere_self_hosted.Notification.Dispatch.{text_or}
use edge_sphere_self_hosted.Notification.Alerts.{
  AlertRule, AlertRecord, Alerts, Condition, error_rate_above, number_or,
}

-- Partial<AlertRule>.
pub record RuleFields : Type 0 where
  pub id : Option String
  pub name : Option String
  pub condition : Option Condition
  pub threshold : Option Ratio
  pub window_minutes : Option Ratio
  pub channels : Option (List String)
  pub enabled : Option Bool

pub data Result {ℓ} (A : Type ℓ) : Type ℓ where
  ok : A → Result A
  rule_not_found : Result A

-- createRule, with the id from uuidv4.
pub new_rule : String → RuleFields → AlertRule
unfolding text_or number_or
new_rule uuid f = record {
  id = uuid;
  name = text_or f.name "New Rule";
  condition = or_else f.condition error_rate_above;
  threshold = number_or f.threshold 0;
  window_minutes = number_or f.window_minutes 5;
  channels = or_else f.channels ("webhook" ∷ []);
  enabled = or_else f.enabled true;
}

pub create_rule : String → RuleFields → Alerts → Alerts × AlertRule
create_rule uuid f s = (record s { rules = s.rules ++ new_rule uuid f ∷ [] }, new_rule uuid f)

-- `{ ...rule, ...updates }`.
pub merge : AlertRule → RuleFields → AlertRule
merge r f = record {
  id = or_else f.id r.id;
  name = or_else f.name r.name;
  condition = or_else f.condition r.condition;
  threshold = or_else f.threshold r.threshold;
  window_minutes = or_else f.window_minutes r.window_minutes;
  channels = or_else f.channels r.channels;
  enabled = or_else f.enabled r.enabled;
}

abbrev pub has_id : String → AlertRule → Bool
has_id id r = str_eq r.id id

-- Replaces the first rule with the id, which findIndex finds.
pub update_first : String → RuleFields → List AlertRule → List AlertRule
update_first id f [] = []
update_first id f (r ∷ rs) = if has_id id r then merge r f ∷ rs else r ∷ update_first id f rs

pub update_rule : String → RuleFields → Alerts → Result (Alerts × AlertRule)
update_rule id f s = elim (find (has_id id) s.rules) [
  | none ↦ rule_not_found
  | some r ↦ ok (record s { rules = update_first id f s.rules }, merge r f)
]

pub delete_rule : String → Alerts → Alerts
delete_rule id s = record s { rules = keep (λ r. not (has_id id r)) s.rules }

pub list_rules : Alerts → Option PageArg → Option PageArg → Page AlertRule
list_rules s page page_size = query_page s.rules page page_size

pub get_alert_history : Alerts → Option PageArg → Option PageArg → Page AlertRecord
get_alert_history s page page_size = query_page s.history page page_size

find-keep-not :
    (id : String) (rs : List AlertRule) → find (has_id id) (keep (λ r. not (has_id id r)) rs) ≡ none
find-keep-not id [] = refl
find-keep-not id (r ∷ rs) = ground (arith, find-keep-not id rs)

-- A deleted rule cannot be found again, so an update of it fails.
pub update-delete :
    (id : String) (f : RuleFields) (s : Alerts)
    → update_rule id f (delete_rule id s) ≡ rule_not_found
unfolding update_rule delete_rule
update-delete id f s = rw (find-keep-not id s.rules, update_rule)

find-append_last :
    (id : String) (rs : List AlertRule) (r : AlertRule)
    → find (has_id id) rs ≡ none
    → has_id id r ≡ true
    → find (has_id id) (rs ++ r ∷ []) ≡ some r
find-append_last id [] r e h = rw h
find-append_last id (q ∷ rs) r e h = ground (arith, find-append_last id rs r)

update_first-append_last :
    (id : String) (f : RuleFields) (rs : List AlertRule) (r : AlertRule)
    → find (has_id id) rs ≡ none
    → has_id id r ≡ true
    → update_first id f (rs ++ r ∷ []) ≡ rs ++ merge r f ∷ []
unfolding update_first
update_first-append_last id f [] r e h = rw h
update_first-append_last id f (q ∷ rs) r e h = ground (arith, update_first-append_last id f rs r)

-- A rule created under a fresh id is found by an update of it, which changes that rule alone and
-- gives it each field that the update has.
pub update-create :
    (uuid : String) (f g : RuleFields) (s : Alerts)
    → find (has_id uuid) s.rules ≡ none
    → let r = new_rule uuid f in
      update_rule uuid g (create_rule uuid f s).0
      ≡ ok (record s { rules = s.rules ++ merge r g ∷ [] }, merge r g)
unfolding update_rule create_rule new_rule
update-create uuid f g s fresh =
    let r = new_rule uuid f in
    let same = eq_refl uuid in
    rw (find-append_last uuid s.rules r fresh same, update_rule)
      (rw (update_first-append_last uuid g s.rules r fresh same))

find-update_first_other :
    (id other : String) (f : RuleFields) (rs : List AlertRule)
    → f.id ≡ none
    → str_eq id other ≡ false
    → find (has_id other) (update_first id f rs) ≡ find (has_id other) rs
unfolding update_first merge
find-update_first_other id other f [] keeps differ = refl
find-update_first_other id other f (r ∷ rs) keeps differ = ground (
  arith,
  eq_iff r.id id,
  eq_iff r.id other,
  eq_iff id other,
  find-update_first_other id other f rs keeps differ,
)

-- A rule with another id is found as before after an update that keeps the ids.
pub update_other :
    (id other : String) (f : RuleFields) (s : Alerts)
    → f.id ≡ none
    → str_eq id other ≡ false
    → find (has_id other) (update_first id f s.rules) ≡ find (has_id other) s.rules
update_other id other f s keeps differ = find-update_first_other id other f s.rules keeps differ
