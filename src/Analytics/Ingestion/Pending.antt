-- ===== src/Analytics/Ingestion/Pending.antt =====
-- The events that are on their way to the database, after each step.
use mathlib.Core.Path.{subst}
use mathlib.Core.List.{append_assoc, append-nil}
use edge_sphere_self_hosted.Prelude.{
  ℕ, ◌+◌, ◌≡◌, refl, sym, ap, ◌∙◌, inl, inr, List, [], ◌∷◌, ◌++◌, Bool, true, false, ◌||◌, Option,
  none, some, String, str_eq, leb, if◌then◌else◌, length, arith, Bool-cases,
}
use edge_sphere_self_hosted.Analytics.Ingestion.{
  RequestEvent, Inserting, Consumer, Event, message, tick, answered, is_empty, begin_flush,
  end_flush, push_event, take_value, each_message, step, run,
}

-- The events that a list of happenings brings, in their order.
abbrev pub value_events : (is_request : Bool) → Option (Option RequestEvent) → List RequestEvent
value_events true (some (some event)) = event ∷ []
value_events true (some none) = []
value_events true none = []
value_events false value = []

abbrev pub accepted : List Event → List RequestEvent
accepted [] = []
accepted (message m ∷ events) =
    value_events (str_eq m.topic "request.events") m.value ++ accepted events
accepted (tick ∷ events) = accepted events
accepted (answered answer ∷ events) = accepted events

-- The events of all batches that were handed over, and the number of those whose insert succeeded.
abbrev pub handed : List (Bool × List RequestEvent) → List RequestEvent
handed [] = []
handed ((succeeded, events) ∷ attempts) = events ++ handed attempts

abbrev pub stored_count : List (Bool × List RequestEvent) → ℕ
stored_count [] = 0
stored_count ((succeeded, events) ∷ attempts) =
    (if succeeded then length events else 0) + stored_count attempts

abbrev pub pending : Consumer → List RequestEvent
pending s = handed s.attempts ++ (s.in_flight ++ s.batch)

abbrev pub IsIdle : Consumer → Type 0
IsIdle s = s.is_processing ≡ false → s.in_flight ≡ []

pub handed-append :
    (xs ys : List (Bool × List RequestEvent)) → handed (xs ++ ys) ≡ handed xs ++ handed ys
handed-append [] ys = refl
handed-append ((succeeded, events) ∷ xs) ys =
    simp (handed-append xs ys, append_assoc events (handed xs) (handed ys))

pub stored_count-append :
    (xs ys : List (Bool × List RequestEvent))
    → stored_count (xs ++ ys) ≡ stored_count xs + stored_count ys
stored_count-append [] ys = omega arith
stored_count-append (attempt ∷ xs) ys = omega (arith, stored_count-append xs ys)

pub begin_flush-pending : (s : Consumer) → IsIdle s → pending (begin_flush s) ≡ pending s
unfolding begin_flush
begin_flush-pending s idle = elim (Bool-cases (is_empty s.batch || s.is_processing)) [
  | inl stays ↦ simp stays
  | inr begins ↦
      let free : s.is_processing ≡ false = ground arith in
      simp (begins, idle free, append-nil s.batch)
]

pub begin_flush-IsIdle : (s : Consumer) → IsIdle s → IsIdle (begin_flush s)
unfolding begin_flush
begin_flush-IsIdle s idle = elim (Bool-cases (is_empty s.batch || s.is_processing)) [
  | inl stays ↦ rw stays idle
  | inr begins ↦ rw begins (λ e. cc)
]

pub end_flush-pending :
    (answer : Inserting) (s : Consumer) → pending (end_flush answer s) ≡ pending s
unfolding end_flush
end_flush-pending answer s = elim (Bool-cases s.is_processing) [
  | inl busy ↦ simp (
    busy,
    handed-append s.attempts ((answer.succeeds, s.in_flight) ∷ []),
    append-nil s.in_flight,
    append_assoc (handed s.attempts) s.in_flight s.batch,
  )
  | inr free ↦ simp free
]

pub end_flush-IsIdle : (answer : Inserting) (s : Consumer) → IsIdle s → IsIdle (end_flush answer s)
unfolding end_flush
end_flush-IsIdle answer s idle = elim (Bool-cases s.is_processing) [
  | inl busy ↦ rw busy (λ e. refl)
  | inr free ↦ let same : end_flush answer s ≡ s = simp free in subst IsIdle (sym same) idle
]

pub push_event-pending :
    (event : RequestEvent) (s : Consumer)
    → IsIdle s
    → pending (push_event event s) ≡ pending s ++ event ∷ []
unfolding push_event
push_event-pending event s idle =
    let pushed : Consumer = record s { batch = s.batch ++ event ∷ [] } in
    let more : pending pushed ≡ pending s ++ event ∷ [] = simp (
      append_assoc (handed s.attempts) (s.in_flight ++ s.batch) (event ∷ []),
      append_assoc s.in_flight s.batch (event ∷ []),
    ) in
    elim (Bool-cases (leb 1000 (length pushed.batch))) [
      | inl full ↦ rw full (begin_flush-pending pushed idle ∙ more)
      | inr room ↦ rw room more
    ]

pub push_event-IsIdle :
    (event : RequestEvent) (s : Consumer) → IsIdle s → IsIdle (push_event event s)
unfolding push_event
push_event-IsIdle event s idle =
    let pushed : Consumer = record s { batch = s.batch ++ event ∷ [] } in
    elim (Bool-cases (leb 1000 (length pushed.batch))) [
      | inl full ↦ rw full (begin_flush-IsIdle pushed idle)
      | inr room ↦ rw room idle
    ]

pub take_value-pending :
    (topic : String) (value : Option (Option RequestEvent)) (s : Consumer)
    → IsIdle s
    → (pending (take_value topic value s)
        ≡ pending s ++ value_events (str_eq topic "request.events") value)
      × IsIdle (take_value topic value s)
unfolding take_value
take_value-pending topic none s idle = elim (Bool-cases (str_eq topic "request.events")) [
  | inl request ↦ rw request (sym (append-nil (pending s)), idle)
  | inr other ↦ rw other (sym (append-nil (pending s)), idle)
]
take_value-pending topic (some none) s idle = elim (Bool-cases (str_eq topic "request.events")) [
  | inl request ↦ rw request (sym (append-nil (pending s)), idle)
  | inr other ↦ rw other (sym (append-nil (pending s)), idle)
]
take_value-pending topic (some (some event)) s idle =
    elim (Bool-cases (str_eq topic "request.events")) [
      | inl request ↦ rw request (push_event-pending event s idle, push_event-IsIdle event s idle)
      | inr other ↦ rw other (sym (append-nil (pending s)), idle)
    ]

pub run-pending :
    (events : List Event) (s : Consumer)
    → IsIdle s
    → (pending (run events s) ≡ pending s ++ accepted events) × IsIdle (run events s)
unfolding run step each_message
run-pending [] s idle = (sym (append-nil (pending s)), idle)
run-pending (message m ∷ events) s idle =
    let taken = take_value-pending m.topic m.value s idle in
    let later = run-pending events (take_value m.topic m.value s) taken.1 in
    (
      later.0
          ∙ ap (λ before. before ++ accepted events) taken.0
          ∙ append_assoc (pending s) (value_events (str_eq m.topic "request.events") m.value)
              (accepted events),
      later.1,
    )
run-pending (tick ∷ events) s idle =
    let later = run-pending events (begin_flush s) (begin_flush-IsIdle s idle) in
    (later.0 ∙ ap (λ before. before ++ accepted events) (begin_flush-pending s idle), later.1)
run-pending (answered answer ∷ events) s idle =
    let later = run-pending events (end_flush answer s) (end_flush-IsIdle answer s idle) in
    (later.0 ∙ ap (λ before. before ++ accepted events) (end_flush-pending answer s), later.1)
