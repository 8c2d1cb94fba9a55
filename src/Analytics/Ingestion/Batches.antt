-- ===== src/Analytics/Ingestion/Batches.antt =====
-- No event is lost or taken twice on its way from Kafka to the inserts.
use mathlib.Core.Path.{subst}
use mathlib.Core.List.{append-nil}
use edge_sphere_self_hosted.Prelude.{
  ℕ, suc, ◌+◌, ◌≡◌, refl, sym, ap, ◌∙◌, inl, inr, List, [], ◌∷◌, ◌++◌, true, false, ◌||◌, Option,
  none, some, String, str_eq, leb, if◌then◌else◌, length, arith, Bool-cases, length-append,
}
use edge_sphere_self_hosted.Analytics.Ingestion.{
  RequestEvent, EventEntity, Inserting, Consumer, Event, message, tick, answered, to_entities,
  ingest_event_batch, is_empty, begin_flush, end_flush, push_event, take_value, each_message, step,
  run, started,
}
use edge_sphere_self_hosted.Analytics.Ingestion.Pending.{
  accepted, handed, stored_count, pending, IsIdle, stored_count-append, end_flush-IsIdle,
  run-pending,
}

length-to_entities :
    (now : ℕ) (uuid : ℕ → String) (first : ℕ) (events : List RequestEvent)
    → length (to_entities now uuid first events) ≡ length events
unfolding to_entities
length-to_entities now uuid first [] = refl
length-to_entities now uuid first (event ∷ events) =
    ap suc (length-to_entities now uuid (suc first) events)

-- Each row of the table is one from before or comes from a batch whose insert succeeded.
abbrev IsCounted : ℕ → Consumer → Type 0
IsCounted before s = length s.rows ≡ before + stored_count s.attempts

length-ingest :
    (answer : Inserting) (events : List RequestEvent) (rows : List EventEntity)
    → length (ingest_event_batch answer events rows)
      ≡ length rows + (if answer.succeeds then length events else 0)
unfolding ingest_event_batch
length-ingest answer [] rows = ground arith
length-ingest answer (event ∷ events) rows =
    let added = length-to_entities answer.now answer.uuid 0 (event ∷ events) in
    ground (arith, length-append rows (to_entities answer.now answer.uuid 0 (event ∷ events)))

begin_flush-IsCounted :
    (before : ℕ) (s : Consumer) → IsCounted before s → IsCounted before (begin_flush s)
unfolding begin_flush
begin_flush-IsCounted before s h = elim (Bool-cases (is_empty s.batch || s.is_processing)) [
  | inl stays ↦ rw stays h
  | inr begins ↦ rw begins h
]

end_flush-IsCounted :
    (before : ℕ) (answer : Inserting) (s : Consumer)
    → IsCounted before s
    → IsCounted before (end_flush answer s)
unfolding end_flush
end_flush-IsCounted before answer s h = elim (Bool-cases s.is_processing) [
  | inl busy ↦ ground (
    arith,
    length-ingest answer s.in_flight s.rows,
    stored_count-append s.attempts ((answer.succeeds, s.in_flight) ∷ []),
  )
  | inr free ↦
      let same : end_flush answer s ≡ s = simp free in subst (IsCounted before) (sym same) h
]

take_value-IsCounted :
    (before : ℕ) (topic : String) (value : Option (Option RequestEvent)) (s : Consumer)
    → IsCounted before s
    → IsCounted before (take_value topic value s)
unfolding take_value push_event
take_value-IsCounted before topic none s h = h
take_value-IsCounted before topic (some none) s h = h
take_value-IsCounted before topic (some (some event)) s h =
    let pushed : Consumer = record s { batch = s.batch ++ event ∷ [] } in
    elim (Bool-cases (str_eq topic "request.events")) [
      | inl request ↦ elim (Bool-cases (leb 1000 (length pushed.batch))) [
        | inl full ↦ rw (request, full) (begin_flush-IsCounted before pushed h)
        | inr room ↦ rw (request, room) h
      ]
      | inr other ↦ rw other h
    ]

run-IsCounted :
    (before : ℕ) (events : List Event) (s : Consumer)
    → IsCounted before s
    → IsCounted before (run events s)
unfolding run step each_message
run-IsCounted before [] s h = h
run-IsCounted before (message m ∷ events) s h =
    run-IsCounted before events (take_value m.topic m.value s)
      (take_value-IsCounted before m.topic m.value s h)
run-IsCounted before (tick ∷ events) s h =
    run-IsCounted before events (begin_flush s) (begin_flush-IsCounted before s h)
run-IsCounted before (answered answer ∷ events) s h =
    run-IsCounted before events (end_flush answer s) (end_flush-IsCounted before answer s h)

-- After any happenings since the start, the events of the batches handed to the database, of the
-- batch under way and of the batch that is gathered are, in this order, exactly the request events
-- that came; and the table has grown by the events of the batches whose insert succeeded.
pub run-accepted :
    (rows : List EventEntity) (events : List Event)
    → (pending (run events (started rows)) ≡ accepted events)
      × (length (run events (started rows)).rows
          ≡ length rows + stored_count (run events (started rows)).attempts)
unfolding started
run-accepted rows events = (
  (run-pending events (started rows) (λ e. refl)).0,
  run-IsCounted (length rows) events (started rows) (omega arith),
)

end_flush-frees : (answer : Inserting) (s : Consumer) → (end_flush answer s).is_processing ≡ false
unfolding end_flush
end_flush-frees answer s = elim (Bool-cases s.is_processing) [
  | inl busy ↦ rw busy refl
  | inr free ↦ simp free
]

empty_batch : (events : List RequestEvent) → is_empty events ≡ true → events ≡ []
unfolding is_empty
empty_batch [] e = refl
empty_batch (event ∷ events) e = cc

flush_empties :
    (answer : Inserting) (s : Consumer)
    → s.is_processing ≡ false
    → IsIdle s
    → ((end_flush answer (begin_flush s)).batch ≡ [])
      × ((end_flush answer (begin_flush s)).in_flight ≡ [])
unfolding begin_flush end_flush
flush_empties answer s free idle = elim (Bool-cases (is_empty s.batch)) [
  | inl empty ↦
      let stays : begin_flush s ≡ s = simp empty in
      let waits : end_flush answer s ≡ s = simp free in
      let same : end_flush answer (begin_flush s) ≡ s = ap (end_flush answer) stays ∙ waits in
      (rw same (empty_batch s.batch empty), rw same (idle free))
  | inr some_left ↦ (simp (free, some_left), simp (free, some_left))
]

-- Whatever happened since the start, after the answers to the insert under way and to one flush of
-- the timer every request event that came was handed to the database, in the order in which the
-- events came, and nothing is left in memory.
pub flushes_drain :
    (rows : List EventEntity) (events : List Event) (first second : Inserting)
    → let after = run (answered first ∷ tick ∷ answered second ∷ []) (run events (started rows)) in
      (after.batch ≡ []) × (after.in_flight ≡ []) × (handed after.attempts ≡ accepted events)
unfolding started run step
flushes_drain rows events first second =
    let s = run events (started rows) in
    let before = run-pending events (started rows) (λ e. refl) in
    let freed = end_flush first s in
    let emptied =
      flush_empties second freed (end_flush-frees first s) (end_flush-IsIdle first s before.1) in
    let after = run-pending (answered first ∷ tick ∷ answered second ∷ []) s before.1 in
    let last = end_flush second (begin_flush freed) in
    let all_handed : pending last ≡ handed last.attempts =
      simp (emptied.0, emptied.1, append-nil (handed last.attempts)) in
    (emptied.0, emptied.1, sym all_handed ∙ after.0 ∙ append-nil (pending s) ∙ before.0)
