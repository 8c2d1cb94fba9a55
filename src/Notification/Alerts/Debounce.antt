-- ===== src/Notification/Alerts/Debounce.antt =====
-- The debounce of checkAlerts.
use edge_sphere_self_hosted.Prelude.{
  ℕ, zero, suc, ◌+◌, ◌*◌, ◌≤◌, ◌<◌, ◌≡◌, ◌≢◌, refl, sym, ◌∙◌, ◌⊎◌, List, [], ◌∷◌, ◌++◌, false,
  Option, none, some, String, or_else, length, length-take, take, take_all, take-append-take, All,
  All-append, All-map, Bool-cases, inl, inr, arith, str_eq, eq_refl,
}
use mathlib.Core.List.{append_assoc}
use edge_sphere_self_hosted.Prelude.Maps.{lookup, lookup-insert}
use edge_sphere_self_hosted.Notification.Alerts.History.{check_rule_cases, push_history_lem}
use edge_sphere_self_hosted.Notification.Alerts.{
  AlertRule, AlertRecord, Alerts, Stats, Reply, Message, evaluate_condition, debounced, fire,
  check_rule, check_rules, check_alerts, debounce_minutes, record_of,
}

-- The rule id was last triggered a whole debounce ago, or never.
abbrev pub IsDue : ℕ → ℕ → List (String × ℕ) → String → Type 0
IsDue minutes now last id = or_else (lookup id last) 0 + minutes * 60 * 1000 ≤ now

module _ (print : Message → String) (minutes now : ℕ) (positive : 1 ≤ minutes) where
  -- How a run of rounds from `s` leads to `t`: the new alerts, newest first, are for rules that
  -- were due at `s`; each of these, and no other rule, has the time of the check at `t`.
  record Extends (s t : Alerts) (fresh : List AlertRecord) : Type 0 where
    grown : t.history ≡ take 50 (fresh ++ s.history)
    bound : length t.history ≤ 50
    due : All (λ r. IsDue minutes now s.last_triggered r.rule_id) fresh
    stamped : All (λ r. lookup r.rule_id t.last_triggered ≡ some now) fresh
    others :
        (id : String)
        → (lookup id t.last_triggered ≡ lookup id s.last_triggered)
          ⊎ (lookup id t.last_triggered ≡ some now)

  Extends-idle : (s : Alerts) → length s.history ≤ 50 → Extends s s []
  Extends-idle s h = record {
    grown = sym (take_all 50 s.history h);
    bound = h;
    due = tt;
    stamped = tt;
    others = λ id. inl refl;
  }

  Extends-fire :
      (w : Reply) (rule : AlertRule) (stats : Stats) (s : Alerts)
      → length s.history ≤ 50
      → debounced print minutes now rule s ≡ false
      → let e = evaluate_condition rule stats in
        Extends s (fire print w now rule e s) (record_of print w rule e ∷ [])
  unfolding fire record_of
  Extends-fire w rule stats s h due =
      let r = record_of print w rule (evaluate_condition rule stats) in
      let e = push_history_lem print r s.history h in
      record {
        grown = e;
        bound = rw e (omega (arith, length-take 50 (r ∷ s.history)));
        due = (ground arith, tt);
        stamped = (simp (lookup-insert, eq_refl), tt);
        others = λ id. elim (Bool-cases (str_eq rule.id id)) [
          | inl same ↦ inr (simp (lookup-insert, same))
          | inr other ↦ inl (simp (lookup-insert, other))
        ];
      }

  -- What is due after some rounds was due before them: a round stamps with the time of the check.
  IsDue-before :
      (s t : Alerts) (f : List AlertRecord) (id : String)
      → Extends s t f
      → IsDue minutes now t.last_triggered id
      → IsDue minutes now s.last_triggered id
  IsDue-before s t f id a d = elim (a.others id) [
    | inl same ↦ rw (← same) d
    | inr stamp ↦ absurd (ground (arith, stamp))
  ]

  Extends-trans :
      (s t u : Alerts) (f g : List AlertRecord)
      → Extends s t f
      → Extends t u g
      → Extends s u (g ++ f)
  Extends-trans s t u f g a b = record {
    grown =
        rw (b.grown, a.grown, append_assoc)
          (take-append-take 50 50 g (f ++ s.history) (omega arith));
    bound = b.bound;
    due = All-append _ g f (All-map _ _ g (λ r. IsDue-before s t f r.rule_id a) b.due) a.due;
    stamped = All-append _ g f b.stamped (
        All-map _ _ f (λ r e. elim (b.others r.rule_id) [ inl same ↦ same ∙ e | inr stamp ↦ stamp ])
          a.stamped);
    others = λ id. elim (b.others id) [
      | inr stamp ↦ inr stamp
      | inl same ↦ elim (a.others id) [
        | inr stamp ↦ inr (same ∙ stamp)
        | inl still ↦ inl (same ∙ still)
      ]
    ];
  }

  abbrev Extended : Alerts → Alerts → Type 0
  Extended s t = (fresh : List AlertRecord) × Extends s t fresh

  check_rule-Extended :
      (w : Reply) (rule : AlertRule) (s : Alerts)
      → length s.history ≤ 50
      → Extended s (check_rule print minutes w now rule s)
  check_rule-Extended w rule s h =
      check_rule_cases print (Extended s) minutes w now rule s ([], Extends-idle s h)
        (λ stats _ due _ _. (_, Extends-fire w rule stats s h due))

  check_rules-Extended :
      (world : ℕ → Reply) (k : ℕ) (rules : List AlertRule) (s : Alerts)
      → length s.history ≤ 50
      → Extended s (check_rules print minutes world k now rules s)
  unfolding check_rules
  check_rules-Extended world k [] s h = ([], Extends-idle s h)
  check_rules-Extended world k (rule ∷ rules) s h =
      let t = check_rule print minutes (world k) now rule s in
      let (f, a) = check_rule-Extended (world k) rule s h in
      let (g, b) = check_rules-Extended world (suc k) rules t a.bound in
      (g ++ f, Extends-trans s t _ f g a b)

module _ (print : Message → String) (setting : Option ℕ) where
  abbrev minutes : ℕ
  minutes = debounce_minutes print setting

  minutes_pos : 1 ≤ minutes
  unfolding debounce_minutes
  minutes_pos = elim setting as (λ o. 1 ≤ debounce_minutes print o) [
    | none ↦ omega arith
    | some n ↦ elim n as (λ m. 1 ≤ debounce_minutes print (some m)) [
      | zero ↦ omega arith
      | suc m ↦ omega arith
    ]
  ]

  -- Each check puts its new alerts in front of the history, which keeps 50. A new alert is for a
  -- rule that was not triggered within the debounce time, and is then stamped with the check's time.
  pub check_alerts-debounce :
      (world : ℕ → Reply) (now : ℕ) (s : Alerts)
      → length s.history ≤ 50
      → let t = check_alerts print setting world now s in
        (fresh : List AlertRecord) × (t.history ≡ take 50 (fresh ++ s.history))
        × All (λ r. IsDue minutes now s.last_triggered r.rule_id) fresh
        × All (λ r. lookup r.rule_id t.last_triggered ≡ some now) fresh
  unfolding check_alerts
  check_alerts-debounce world now s h =
      let (f, a) = check_rules-Extended print minutes now minutes_pos world 0 s.rules s h in
      (f, a.grown, a.due, a.stamped)

  apart :
      (now later : ℕ) (last : List (String × ℕ)) (r q : AlertRecord)
      → later < now + minutes * 60 * 1000
      → lookup r.rule_id last ≡ some now
      → IsDue minutes later last q.rule_id
      → r.rule_id ≢ q.rule_id
  apart now later last r q close stamp due same =
      let e : lookup q.rule_id last ≡ some now = rw (← same) stamp in ground (arith, e)

  -- Of two checks within the debounce time, the second alerts for no rule that the first alerted
  -- for, whatever happened in the world between them.
  pub check_alerts_apart :
      (world world' : ℕ → Reply) (now later : ℕ) (s : Alerts)
      → length s.history ≤ 50
      → later < now + minutes * 60 * 1000
      → let t = check_alerts print setting world now s in
        (f g : List AlertRecord) × (t.history ≡ take 50 (f ++ s.history))
        × ((check_alerts print setting world' later t).history ≡ take 50 (g ++ t.history))
        × All (λ r. All (λ q. r.rule_id ≢ q.rule_id) g) f
  unfolding check_alerts
  check_alerts_apart world world' now later s h close =
      let t = check_rules print minutes world 0 now s.rules s in
      let (f, a) = check_rules-Extended print minutes now minutes_pos world 0 s.rules s h in
      let (g, b) =
        check_rules-Extended print minutes later minutes_pos world' 0 t.rules t a.bound in
      (
        f,
        g,
        a.grown,
        b.grown,
        All-map _ _ f
            (λ r stamp. All-map _ _ g (λ q due. apart now later _ r q close stamp due) b.due)
            a.stamped,
      )
