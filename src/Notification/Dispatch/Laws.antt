-- ===== src/Notification/Dispatch/Laws.antt =====
-- What a dispatch leaves in the history, the counters and the requests.
use edge_sphere_self_hosted.Prelude.{
  ℕ, suc, ◌+◌, ◌≤◌, ◌≡◌, refl, sym, ◌∙◌, inl, inr, ◌↔◌, List, [], ◌∷◌, ◌++◌, Bool, true, false,
  Option, none, some, String, ltb, if◌then◌else◌, is_some, length, length-take, length-append, take,
  pop-take, take_all, Bool-cases, arith,
}
use mathlib.Core.List.{append-nil, append_assoc}
use edge_sphere_self_hosted.Notification.Dispatch.{
  Outside, Alert, Outgoing, NotificationRecord, Notifications, success, failed, request_of,
  answer_of, send_channel, send_channels, fresh_record, file_record, dispatch,
}

-- Keeping the newest 100 is what `unshift` and `pop` do to a history that holds 100 at most.
file_record-history :
    (out : Outside) (alert : Alert) (rec : NotificationRecord) (n : Notifications)
    → length n.history ≤ 100
    → (file_record out alert (rec, n)).history ≡ take 100 (rec ∷ n.history)
unfolding file_record
file_record-history out alert rec n h = elim (Bool-cases (ltb 100 (suc (length n.history)))) [
  | inl e ↦ rw e (pop-take 100 (rec ∷ n.history) (ground arith))
  | inr e ↦ rw e (sym (take_all 100 (rec ∷ n.history) (ground arith)))
]

module _ (out : Outside) (alert : Alert) where
  -- What the world answers to each channel, in the order of the loop.
  pub outcomes : ℕ → List String → List (String × Option String)
  outcomes k [] = []
  outcomes k (c ∷ cs) = (c, answer_of out alert k (request_of out alert c)) ∷ outcomes (suc k) cs

  pub add_request : String → List Outgoing → List Outgoing
  add_request c rs = elim (request_of out alert c) [ none ↦ rs | some r ↦ r ∷ rs ]

  -- The requests made for the channels, in their order.
  pub requests_of : List String → List Outgoing
  requests_of [] = []
  requests_of (c ∷ cs) = add_request c (requests_of cs)

  add_request-append : (c : String) (rs : List Outgoing) → add_request c rs ≡ add_request c [] ++ rs
  unfolding add_request
  add_request-append c rs = ground arith

-- The channels whose request was answered well (or not made), and those where it failed.
pub delivered : List (String × Option String) → List String
delivered [] = []
delivered ((c, o) ∷ os) = if is_some o then delivered os else c ∷ delivered os

pub undelivered : List (String × Option String) → List String
undelivered [] = []
undelivered ((c, o) ∷ os) = if is_some o then c ∷ undelivered os else undelivered os

-- The status and the error that a record has after the answers: the last error stays.
pub after_answers : List (String × Option String) → NotificationRecord → NotificationRecord
after_answers [] rec = rec
after_answers ((c, o) ∷ os) rec =
    after_answers os (if is_some o then record rec { status = failed; error = o } else rec)

if-append :
    (b : Bool) (c : String) (cs : List String)
    → (if b then c ∷ [] else []) ++ cs ≡ (if b then c ∷ cs else cs)
if-append b c cs = ground arith

if_not-append :
    (b : Bool) (c : String) (cs : List String)
    → (if b then [] else c ∷ []) ++ cs ≡ (if b then cs else c ∷ cs)
if_not-append b c cs = ground arith

module _ (out : Outside) (alert : Alert) where
  -- One round, in closed form.
  send_channel_lem :
      (k : ℕ) (c : String) (rec : NotificationRecord) (n : Notifications)
      → let o = answer_of out alert k (request_of out alert c) in
        send_channel out alert k c (rec, n) ≡ (
          if is_some o then record rec { status = failed; error = o } else rec,
          record n {
            requests = n.requests ++ add_request out alert c [];
            sent_total = n.sent_total ++ (if is_some o then [] else c ∷ []);
            failed_total = n.failed_total ++ (if is_some o then c ∷ [] else []);
          },
        )
  unfolding send_channel add_request
  send_channel_lem k c rec n =
      ground (arith, append-nil n.requests, append-nil n.sent_total, append-nil n.failed_total)

  -- The loop over the channels, in closed form.
  send_channels_lem :
      (k : ℕ) (channels : List String) (rec : NotificationRecord) (n : Notifications)
      → let os = outcomes out alert k channels in
        send_channels out alert k channels (rec, n) ≡ (
          after_answers os rec,
          record n {
            requests = n.requests ++ requests_of out alert channels;
            sent_total = n.sent_total ++ delivered os;
            failed_total = n.failed_total ++ undelivered os;
          },
        )
  unfolding send_channels outcomes delivered undelivered after_answers requests_of
  send_channels_lem k [] rec n =
      ground (arith, append-nil n.requests, append-nil n.sent_total, append-nil n.failed_total)
  send_channels_lem k (c ∷ cs) rec n =
      let more = add_request-append out alert c (requests_of out alert cs) in
      rw (send_channel_lem k c rec n, more)
        (simp (send_channels_lem (suc k) cs, append_assoc, if-append, if_not-append))

is_empty : List String → Bool
is_empty [] = true
is_empty (c ∷ cs) = false

after_answers-status :
    (os : List (String × Option String)) (rec : NotificationRecord)
    → (after_answers os rec).status ≡ (if is_empty (undelivered os) then rec.status else failed)
unfolding after_answers undelivered is_empty
after_answers-status [] rec = refl
after_answers-status ((c, none) ∷ os) rec = after_answers-status os rec
after_answers-status ((c, some m) ∷ os) rec =
    after_answers-status os (record rec { status = failed; error = some m }) ∙ ground arith

after_answers-channels :
    (os : List (String × Option String)) (rec : NotificationRecord)
    → (after_answers os rec).channels ≡ rec.channels
unfolding after_answers
after_answers-channels [] rec = refl
after_answers-channels ((c, none) ∷ os) rec = after_answers-channels os rec
after_answers-channels ((c, some m) ∷ os) rec =
    after_answers-channels os (record rec { status = failed; error = some m })

success_iff :
    (out : Outside) (alert : Alert) (channels : List String) (os : List (String × Option String))
    → ((after_answers os (fresh_record out alert channels)).status ≡ success)
      ↔ (undelivered os ≡ [])
unfolding is_empty fresh_record
success_iff out alert channels os =
    let e = after_answers-status os (fresh_record out alert channels) in
    (ground (arith, e), ground (arith, e))

delivered-undelivered :
    (out : Outside) (alert : Alert) (k : ℕ) (cs : List String)
    → let os = outcomes out alert k cs in
      length (delivered os) + length (undelivered os) ≡ length cs
unfolding outcomes delivered undelivered
delivered-undelivered out alert k [] = omega arith
delivered-undelivered out alert k (c ∷ cs) =
    ground (arith, delivered-undelivered out alert (suc k) cs)

module _ (out : Outside) (alert : Alert) (channels : List String) (n : Notifications) where
  abbrev filed : NotificationRecord
  filed = after_answers (outcomes out alert 0 channels) (fresh_record out alert channels)

  pub dispatch_lem :
      length n.history ≤ 100
      → let os = outcomes out alert 0 channels in
        let n' = dispatch out alert channels n in
        (n'.history ≡ take 100 (filed ∷ n.history))
        × (filed.channels ≡ channels)
        × ((filed.status ≡ success) ↔ (undelivered os ≡ []))
        × (n'.sent_total ≡ n.sent_total ++ delivered os)
        × (n'.failed_total ≡ n.failed_total ++ undelivered os)
        × (n'.requests ≡ n.requests ++ requests_of out alert channels)
  unfolding dispatch file_record fresh_record
  dispatch_lem h =
      let os = outcomes out alert 0 channels in
      let e = send_channels_lem out alert 0 channels (fresh_record out alert channels) n in
      let sent = record n {
        requests = n.requests ++ requests_of out alert channels;
        sent_total = n.sent_total ++ delivered os;
        failed_total = n.failed_total ++ undelivered os;
      } in
      (
        rw e (file_record-history out alert filed sent h),
        after_answers-channels os (fresh_record out alert channels),
        success_iff out alert channels os,
        rw e,
        rw e,
        rw e,
      )

  -- A dispatch keeps the history within its bound.
  pub dispatch-history-le :
      length n.history ≤ 100 → length (dispatch out alert channels n).history ≤ 100
  dispatch-history-le h =
      rw ((dispatch_lem h).0) (omega (arith, length-take 100 (filed ∷ n.history)))

  -- Each channel is counted once, as sent or as failed.
  pub dispatch-counts :
      let n' = dispatch out alert channels n in
      length n'.sent_total + length n'.failed_total
      ≡ length n.sent_total + length n.failed_total + length channels
  unfolding dispatch file_record
  dispatch-counts =
      let os = outcomes out alert 0 channels in
      rw (send_channels_lem out alert 0 channels (fresh_record out alert channels) n) (
        omega (
          arith,
          length-append n.sent_total (delivered os),
          length-append n.failed_total (undelivered os),
          delivered-undelivered out alert 0 channels,
        ))
