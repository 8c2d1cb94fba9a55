-- ===== src/Notification/Alerts.antt =====
-- alerts/alerts.service.ts and alerts/alert-rule.ts: the rules, the check of each rule against the
-- analytics summary with its debounce, and the history of alerts.
-- Numbers are non-negative. One check runs to its end before another starts; each round takes the
-- world's answers from `Reply`.
pub mod Evaluate
pub mod History
pub mod Debounce
pub mod Rules
mod Tests
use edge_sphere_self_hosted.Prelude.{
  ℕ, zero, suc, ◌+◌, ◌*◌, List, [], ◌∷◌, ◌++◌, Bool, true, false, not, Option, none, some, String,
  ltb, if◌then◌else◌, or_else, length, pop, keep, str_eq,
}
use edge_sphere_self_hosted.Prelude.Maps.{lookup, insert}
use edge_sphere_self_hosted.Prelude.Ratios.{Ratio, whole, ltr, ler, is_zero}
use edge_sphere_self_hosted.Notification.Paging.{Page, PageArg, get_page}
use edge_sphere_self_hosted.Notification.Dispatch.{Outside, Alert, Notifications, text_or, dispatch}

pub data Condition : Type 0 where
  error_rate_above latency_above cache_hit_below bandwidth_above edge_down : Condition

pub record AlertRule : Type 0 where
  pub id : String
  pub name : String
  pub condition : Condition
  pub threshold : Ratio
  pub window_minutes : Ratio
  pub channels : List String
  pub enabled : Bool

-- DEFAULT_ALERT_RULES.
abbrev default_rule : String → String → Condition → ℕ → ℕ → List String → AlertRule
default_rule id name condition threshold minutes channels = record {
  id = id;
  name = name;
  condition = condition;
  threshold = whole threshold;
  window_minutes = whole minutes;
  channels = channels;
  enabled = true;
}

abbrev pub high_error_rate : AlertRule
high_error_rate = default_rule "1" "High Error Rate" error_rate_above 5 5 ("webhook" ∷ [])

abbrev pub high_latency : AlertRule
high_latency = default_rule "2" "High Latency" latency_above 500 5 ("webhook" ∷ [])

abbrev pub low_cache_hit : AlertRule
low_cache_hit = default_rule "3" "Low Cache Hit" cache_hit_below 50 15 ("webhook" ∷ [])

abbrev pub edge_server_down : AlertRule
edge_server_down = default_rule "4" "Edge Server Down" edge_down 0 1 ("email" ∷ "webhook" ∷ [])

abbrev pub default_rules : List AlertRule
default_rules = high_error_rate ∷ high_latency ∷ low_cache_hit ∷ edge_server_down ∷ []

-- The fields of the analytics summary that the rules read; `none` where the answer lacks one.
pub record Stats : Type 0 where
  pub error_rate : Option Ratio
  pub avg_latency : Option Ratio
  pub cache_hit_rate : Option Ratio
  pub bandwidth_usage : Option Ratio
  pub active_edges : Option Ratio

-- The message of each condition, by its parts: the value and the threshold.
pub data Message : Type 0 where
  error_rate latency cache_hit bandwidth edges : (value threshold : Ratio) → Message

pub record Evaluation : Type 0 where
  pub triggered : Bool
  pub value : Ratio
  pub message : Message

-- `x || d` on a number: 0 is falsy too.
pub number_or : Option Ratio → ℕ → Ratio
number_or none d = whole d
number_or (some r) d = if is_zero r then whole d else r

-- The arms of evaluateCondition's switch.
above : (Ratio → Ratio → Message) → Ratio → Ratio → Evaluation
above message value threshold = record {
  triggered = ltr threshold value;
  value = value;
  message = message value threshold;
}

evaluate_as : Condition → Ratio → Stats → Evaluation
unfolding above number_or
evaluate_as error_rate_above t stats = above error_rate (number_or stats.error_rate 0) t
evaluate_as latency_above t stats = above latency (number_or stats.avg_latency 0) t
evaluate_as bandwidth_above t stats = above bandwidth (number_or stats.bandwidth_usage 0) t
evaluate_as cache_hit_below t stats =
    let value = number_or stats.cache_hit_rate 100 in
    record { triggered = ltr value t; value = value; message = cache_hit value t }
evaluate_as edge_down t stats =
    let value = number_or stats.active_edges 1 in
    record { triggered = ler value t; value = value; message = edges value t }

unfoldable pub evaluate_condition : AlertRule → Stats → Evaluation
unfolding evaluate_as
evaluate_condition rule stats = evaluate_as rule.condition rule.threshold stats

pub record AlertRecord : Type 0 where
  pub id : String
  pub rule_id : String
  pub rule_name : String
  pub condition : Condition
  pub threshold : Ratio
  pub current_value : Ratio
  pub message : Message
  pub timestamp : ℕ

-- The service's own fields, the counter alertsTriggeredTotal as the labels of its increments, and
-- the notifications service that it calls.
pub record Alerts : Type 0 where
  pub rules : List AlertRule
  pub history : List AlertRecord
  pub last_triggered : List (String × ℕ)
  pub triggered_total : List (String × Condition)
  pub notifications : Notifications

-- The service after its constructor.
abbrev pub initial : Notifications → Alerts
initial n = record {
  rules = default_rules;
  history = [];
  last_triggered = [];
  triggered_total = [];
  notifications = n;
}

-- What the world gives to one round: the summary of the rule's window, or `none` where the request
-- fails; the id and time of a record; and what a dispatch takes.
pub record Reply : Type 0 where
  pub stats : Ratio → Option Stats
  pub uuid : String
  pub stamp : ℕ
  pub outside : Outside

abbrev condition_text : Condition → String
condition_text error_rate_above = "error_rate_above"
condition_text latency_above = "latency_above"
condition_text cache_hit_below = "cache_hit_below"
condition_text bandwidth_above = "bandwidth_above"
condition_text edge_down = "edge_down"

-- The record as the event that dispatch takes; `print` is the message's text.
module _ (print : Message → String) where
  to_alert : AlertRecord → Alert
  to_alert r = record {
    id = some r.id;
    rule_name = some r.rule_name;
    name = none;
    condition = some (condition_text r.condition);
    message = some (print r.message);
    threshold = some r.threshold;
    current_value = some r.current_value;
    timestamp = some r.timestamp;
  }

  record_of : Reply → AlertRule → Evaluation → AlertRecord
  record_of w rule result = record {
    id = w.uuid;
    rule_id = rule.id;
    rule_name = rule.name;
    condition = rule.condition;
    threshold = rule.threshold;
    current_value = result.value;
    message = result.message;
    timestamp = w.stamp;
  }

  -- `unshift`, and `pop` where there are more than 50.
  pub push_history : AlertRecord → List AlertRecord → List AlertRecord
  push_history r h = let longer = r ∷ h in if ltb 50 (length longer) then pop longer else longer

  -- What checkAlerts does for a rule that has triggered.
  pub fire : Reply → ℕ → AlertRule → Evaluation → Alerts → Alerts
  unfolding push_history
  fire w now rule result s =
      let r = record_of w rule result in
      record s {
        history = push_history r s.history;
        last_triggered = insert rule.id now s.last_triggered;
        triggered_total = s.triggered_total ++ (rule.name, rule.condition) ∷ [];
        notifications = dispatch w.outside (to_alert r) rule.channels s.notifications;
      }

  -- One round of the loop. A rule that is disabled or debounced is skipped, and a failed request is
  -- logged only.
  abbrev debounced : ℕ → ℕ → AlertRule → Alerts → Bool
  debounced minutes now rule s =
      ltb now (or_else (lookup rule.id s.last_triggered) 0 + minutes * 60 * 1000)

  evaluate_round : Reply → ℕ → AlertRule → Option Stats → Alerts → Alerts
  evaluate_round w now rule none s = s
  evaluate_round w now rule (some stats) s =
      let result = evaluate_condition rule stats in
      if result.triggered then fire w now rule result s else s

  pub check_rule : ℕ → Reply → ℕ → AlertRule → Alerts → Alerts
  unfolding evaluate_round
  check_rule minutes w now rule s =
      if not rule.enabled
      then s
      else if debounced minutes now rule s
      then s
      else evaluate_round w now rule (w.stats rule.window_minutes) s

  pub check_rules : ℕ → (ℕ → Reply) → ℕ → ℕ → List AlertRule → Alerts → Alerts
  check_rules minutes world k now [] s = s
  check_rules minutes world k now (rule ∷ rules) s =
      check_rules minutes world (suc k) now rules (check_rule minutes (world k) now rule s)

  -- `ALERT_DEBOUNCE_MINUTES || 10`; the argument is the setting.
  pub debounce_minutes : Option ℕ → ℕ
  debounce_minutes none = 10
  debounce_minutes (some zero) = 10
  debounce_minutes (some (suc m)) = suc m

  unfoldable pub check_alerts : Option ℕ → (ℕ → Reply) → ℕ → Alerts → Alerts
  check_alerts setting world now s = check_rules (debounce_minutes setting) world 0 now s.rules s
