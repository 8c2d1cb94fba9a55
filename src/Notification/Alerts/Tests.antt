-- ===== src/Notification/Alerts/Tests.antt =====
-- Checks of the default rules against a slow world.
use edge_sphere_self_hosted.Prelude.{
  ℕ, ◌≡◌, ◌≢◌, refl, List, [], ◌∷◌, ◌++◌, false, none, some, String, take, All, find, arith,
}
use edge_sphere_self_hosted.Prelude.Maps.{lookup}
use edge_sphere_self_hosted.Prelude.Ratios.{whole}
use edge_sphere_self_hosted.Analytics.Summary.{Rows}
use edge_sphere_self_hosted.Notification.Dispatch.Samples.{outside, nothing}
use edge_sphere_self_hosted.Notification.Alerts.{
  AlertRecord, Alerts, Stats, Reply, Message, evaluate_condition, fire, check_rule, check_rules,
  debounce_minutes, check_alerts, initial, default_rules,
}
use edge_sphere_self_hosted.Notification.Alerts.Debounce.{
  IsDue, check_alerts-debounce, check_alerts_apart,
}
use edge_sphere_self_hosted.Notification.Alerts.Rules.{
  RuleFields, ok, rule_not_found, new_rule, create_rule, update_rule, delete_rule, update_first,
  merge, has_id, update-create, update-delete, update_other,
}

abbrev slow : Stats
slow = record {
  error_rate = none;
  avg_latency = some (whole 900);
  cache_hit_rate = some (whole 0);
  bandwidth_usage = none;
  active_edges = some (whole 0);
}

abbrev slow_world : ℕ → Reply
slow_world k = record { stats = λ w. some slow; uuid = "u"; stamp = 5; outside = outside }

abbrev no_text : Message → String
no_text m = ""

abbrev started : Alerts
started = initial nothing

abbrev checked : Alerts
checked = check_alerts no_text none slow_world 1000000 started

-- Past the first debounce time the latency rule alone triggers, with no edge active and no hit.
check_alerts_test : checked.last_triggered ≡ ("2", 1000000) ∷ []
unfolding check_alerts check_rules check_rule fire evaluate_condition debounce_minutes
check_alerts_test = refl

check_alerts-debounce_example :
    (fresh : List AlertRecord) × (checked.history ≡ take 50 (fresh ++ []))
    × All (λ r. IsDue (debounce_minutes no_text none) 1000000 [] r.rule_id) fresh
    × All (λ r. lookup r.rule_id checked.last_triggered ≡ some 1000000) fresh
check_alerts-debounce_example =
    check_alerts-debounce no_text none slow_world 1000000 started (omega arith)

check_alerts_apart_example :
    (f g : List AlertRecord) × (checked.history ≡ take 50 (f ++ []))
    × ((check_alerts no_text none slow_world 1000001 checked).history
        ≡ take 50 (g ++ checked.history))
    × All (λ r. All (λ q. r.rule_id ≢ q.rule_id) g) f
unfolding debounce_minutes
check_alerts_apart_example =
    check_alerts_apart no_text none slow_world slow_world 1000000 1000001 started (omega arith)
      (omega arith)

-- Every request of the window failed, and none was a hit.
abbrev bad_window : Rows
bad_window = record {
  errors = some 40;
  total = some 40;
  hits = some 0;
  cached_bytes = none;
  p95 = some (whole 3);
  active_users = some 2;
  total_bytes = some 0;
  avg_latency = some (whole 2);
}

abbrev no_fields : RuleFields
no_fields = record {
  id = none;
  name = none;
  condition = none;
  threshold = none;
  window_minutes = none;
  channels = none;
  enabled = none;
}

abbrev off : RuleFields
off = record no_fields { enabled = some false }

update-create_example :
    update_rule "9" off (create_rule "9" no_fields started).0
    ≡ ok (
      record started { rules = default_rules ++ merge (new_rule "9" no_fields) off ∷ [] },
      merge (new_rule "9" no_fields) off,
    )
update-create_example = update-create "9" no_fields off started refl

update-delete_example : update_rule "2" off (delete_rule "2" started) ≡ rule_not_found
update-delete_example = update-delete "2" off started

update_other_example :
    find (has_id "3") (update_first "2" off default_rules) ≡ find (has_id "3") default_rules
update_other_example = update_other "2" "3" off started refl refl
