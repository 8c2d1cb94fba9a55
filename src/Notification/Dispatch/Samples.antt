-- ===== src/Notification/Dispatch/Samples.antt =====
-- Settings, answers and alerts for the tests of the notification service.
use edge_sphere_self_hosted.Prelude.{ℕ, List, [], ◌∷◌, Option, none, some, String}
use edge_sphere_self_hosted.Notification.Dispatch.{
  Settings, Outside, Alert, Outgoing, Notifications, email,
}

abbrev pub no_settings : Settings
no_settings = record { alert_email_to = none; webhook_url = none; slack_webhook_url = none }

-- Mail fails; everything else is answered.
abbrev pub mail_down : ℕ → Outgoing → Option String
mail_down k (email to title alert) = some "connection refused"
mail_down k _ = none

abbrev pub outside : Outside
outside = record { settings = no_settings; record_id = "r1"; stamp = 7; respond = mail_down }

abbrev pub bare_alert : Alert
bare_alert = record {
  id = none;
  rule_name = none;
  name = some "disk";
  condition = none;
  message = some "full";
  threshold = none;
  current_value = none;
  timestamp = none;
}

abbrev pub nothing : Notifications
nothing = record { history = []; requests = []; sent_total = []; failed_total = [] }

abbrev pub three_channels : List String
three_channels = "email" ∷ "slack" ∷ "webhook" ∷ []
