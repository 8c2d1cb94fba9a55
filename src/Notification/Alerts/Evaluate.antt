-- ===== src/Notification/Alerts/Evaluate.antt =====
-- Which rules can trigger at all: the conditions against the values that they read.
use edge_sphere_self_hosted.Prelude.{
  ℕ, suc, ◌*◌, ◌≤◌, ◌≡◌, refl, true, false, Option, none, some, [], ◌∷◌, All, arith,
}
use native.Mathlib.Nat.{one-le-mul}
use edge_sphere_self_hosted.Prelude.Ratios.{Ratio, whole, ler, is_zero}
use edge_sphere_self_hosted.Analytics.Summary.{
  Rows, IsCounted, SummaryStats, get_summary_stats, summary_rates,
}
use edge_sphere_self_hosted.Notification.Alerts.{
  AlertRule, Stats, edge_down, cache_hit_below, number_or, evaluate_condition, high_error_rate,
  low_cache_hit, edge_server_down,
}

-- `response.data` of the analytics service, read by the names that evaluateCondition uses:
-- cacheHitRate, bandwidthUsage and activeEdges are no fields of a summary.
pub stats_of : SummaryStats → Stats
stats_of s = record {
  error_rate = some s.error_rate;
  avg_latency = some s.avg_latency;
  cache_hit_rate = none;
  bandwidth_usage = none;
  active_edges = none;
}

number_or_pos : (o : Option Ratio) → 1 ≤ (number_or o 1).num
unfolding number_or
number_or_pos none = omega arith
number_or_pos (some r) = ground arith

-- A rule `edge_down` with threshold 0 triggers on no summary, with no active edge either: 0 counts
-- as missing and is replaced by 1.
pub edge_down_silent :
    (rule : AlertRule) (stats : Stats)
    → rule.condition ≡ edge_down
    → is_zero rule.threshold ≡ true
    → (evaluate_condition rule stats).triggered ≡ false
unfolding evaluate_condition
edge_down_silent rule stats c z =
    let value = number_or stats.active_edges 1 in
    let pos : 1 ≤ value.num * suc rule.threshold.den =
      one-le-mul (number_or_pos stats.active_edges) (omega arith) in
    ground (arith, pos)

-- A rule `cache_hit_below` with a threshold up to 100 does not trigger on a hit rate of 0: it is
-- replaced by 100.
pub cache_hit_zero_silent :
    (rule : AlertRule) (stats : Stats) (rate : Ratio)
    → rule.condition ≡ cache_hit_below
    → ler rule.threshold (whole 100) ≡ true
    → stats.cache_hit_rate ≡ some rate
    → is_zero rate ≡ true
    → (evaluate_condition rule stats).triggered ≡ false
unfolding evaluate_condition
cache_hit_zero_silent rule stats rate c t e z = ground arith

-- Of the default rules, all but the latency rule are silent on every summary that the analytics
-- service can give.
pub default_rules_silent :
    (window : ℕ) (rows : Rows)
    → IsCounted rows
    → All
        (λ rule.
          (evaluate_condition rule (stats_of (get_summary_stats window rows))).triggered ≡ false)
        (high_error_rate ∷ low_cache_hit ∷ edge_server_down ∷ [])
unfolding evaluate_condition stats_of
default_rules_silent window rows c =
    let e = (summary_rates window rows c).0 in (ground (arith, e), (refl, (refl, tt)))
