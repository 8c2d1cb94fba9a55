-- ===== src/Notification/Dispatch/Tests.antt =====
-- A dispatch over three channels: mail fails, slack has no address, the webhook is answered.
use edge_sphere_self_hosted.Prelude.{◌+◌, ◌≤◌, ◌≡◌, refl, [], ◌∷◌, length, arith}
use edge_sphere_self_hosted.Notification.Dispatch.{
  Notifications, title, request_of, answer_of, send_channel, send_channels, fresh_record,
  file_record, dispatch,
}
use edge_sphere_self_hosted.Notification.Dispatch.Samples.{
  outside, bare_alert, nothing, three_channels,
}
use edge_sphere_self_hosted.Notification.Dispatch.Laws.{
  dispatch_lem, dispatch-counts, dispatch-history-le, outcomes, undelivered,
}

abbrev sent : Notifications
sent = dispatch outside bare_alert three_channels nothing

dispatch_test :
    (sent.sent_total ≡ "slack" ∷ "webhook" ∷ [])
    × (sent.failed_total ≡ "email" ∷ [])
    × (length sent.requests ≡ 2)
unfolding dispatch send_channels send_channel fresh_record file_record request_of title answer_of
dispatch_test = (refl, refl, refl)

dispatch_lem_example :
    sent.failed_total ≡ undelivered (outcomes outside bare_alert 0 three_channels)
dispatch_lem_example = (dispatch_lem outside bare_alert three_channels nothing (omega arith)).4

dispatch-history-le_example : length sent.history ≤ 100
dispatch-history-le_example =
    dispatch-history-le outside bare_alert three_channels nothing (omega arith)

dispatch-counts_example : length sent.sent_total + length sent.failed_total ≡ 3
dispatch-counts_example = dispatch-counts outside bare_alert three_channels nothing
