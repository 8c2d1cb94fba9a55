-- ===== src/Notification/Alerts/History.antt =====
-- The bounds of both histories, and how a check extends the history of alerts.
use edge_sphere_self_hosted.Prelude.{
  ℕ, suc, ◌≤◌, ◌≡◌, sym, List, [], ◌∷◌, true, false, Option, some, String, ltb, length, length-take,
  take, take_all, pop-take, Bool-cases, Option-cases, inl, inr, arith,
}
use edge_sphere_self_hosted.Notification.Dispatch.Laws.{dispatch-history-le}
use edge_sphere_self_hosted.Notification.Alerts.{
  AlertRule, AlertRecord, Alerts, Stats, Reply, Message, Evaluation, evaluate_condition,
  evaluate_round, debounced, push_history, fire, check_rule, check_rules, check_alerts,
  debounce_minutes, record_of, to_alert,
}

module _ (print : Message → String) where
  pub push_history_lem :
      (r : AlertRecord) (h : List AlertRecord)
      → length h ≤ 50
      → push_history print r h ≡ take 50 (r ∷ h)
  unfolding push_history
  push_history_lem r h le = elim (Bool-cases (ltb 50 (suc (length h)))) [
    | inl e ↦ rw e (pop-take 50 (r ∷ h) (ground arith))
    | inr e ↦ rw e (sym (take_all 50 (r ∷ h) (ground arith)))
  ]

  -- A round leaves the service as it was, or fires an enabled rule that is not debounced and that
  -- its summary triggers.
  pub check_rule_cases {ℓ} :
      (P : Alerts → Type ℓ) (minutes : ℕ) (w : Reply) (now : ℕ) (rule : AlertRule) (s : Alerts)
      → P s
      → ((stats : Stats)
          → rule.enabled ≡ true
          → debounced print minutes now rule s ≡ false
          → w.stats rule.window_minutes ≡ some stats
          → (evaluate_condition rule stats).triggered ≡ true
          → P (fire print w now rule (evaluate_condition rule stats) s))
      → P (check_rule print minutes w now rule s)
  unfolding check_rule
  check_rule_cases P minutes w now rule s idle fires = elim (Bool-cases rule.enabled) [
    | inr off ↦ simp off idle
    | inl on ↦ elim (Bool-cases (debounced print minutes now rule s)) [
      | inl quiet ↦ simp (on, quiet) idle
      | inr due ↦ elim (Option-cases (w.stats rule.window_minutes)) [
        | inl lost ↦ simp (on, due) (rw (lost, evaluate_round) idle)
        | inr (stats, got) ↦ elim (Bool-cases (evaluate_condition rule stats).triggered) [
          | inl hit ↦
              simp (on, due) (rw (got, evaluate_round) (simp hit (fires stats on due got hit)))
          | inr calm ↦ simp (on, due) (rw (got, evaluate_round) (simp calm idle))
        ]
      ]
    ]
  ]

  -- The bounds that the services keep.
  pub record IsBounded (s : Alerts) : Type 0 where
    pub alerts : length s.history ≤ 50
    pub sent : length s.notifications.history ≤ 100

  fire-IsBounded :
      (w : Reply) (now : ℕ) (rule : AlertRule) (e : Evaluation) (s : Alerts)
      → IsBounded s
      → IsBounded (fire print w now rule e s)
  unfolding fire
  fire-IsBounded w now rule e s b =
      let r = record_of print w rule e in
      record {
        alerts =
            rw (push_history_lem r s.history b.alerts)
              (omega (arith, length-take 50 (r ∷ s.history)));
        sent =
            dispatch-history-le w.outside (to_alert print r) rule.channels s.notifications b.sent;
      }

  check_rules-IsBounded :
      (minutes : ℕ) (world : ℕ → Reply) (k now : ℕ) (rules : List AlertRule) (s : Alerts)
      → IsBounded s
      → IsBounded (check_rules print minutes world k now rules s)
  unfolding check_rules
  check_rules-IsBounded minutes world k now [] s b = b
  check_rules-IsBounded minutes world k now (rule ∷ rules) s b =
      check_rules-IsBounded minutes world (suc k) now rules _ (
        check_rule_cases IsBounded minutes (world k) now rule s b
          (λ stats _ _ _ _. fire-IsBounded (world k) now rule _ s b))

  -- A check keeps at most 50 alerts and 100 notifications, whatever the world answers.
  pub check_alerts-IsBounded :
      (setting : Option ℕ) (world : ℕ → Reply) (now : ℕ) (s : Alerts)
      → IsBounded s
      → IsBounded (check_alerts print setting world now s)
  unfolding check_alerts
  check_alerts-IsBounded setting world now s b =
      check_rules-IsBounded (debounce_minutes print setting) world 0 now s.rules s b
