-- ===== src/RouterNotifications/Tests.antt =====
-- Two of the default notifications, and a new one.
use foris_controller.Prelude.{false, [], ◌∷◌, lookup, arith}
use foris_controller.RouterNotifications.{Notification, State}
use foris_controller.RouterNotifications.Laws.{HasEnglish}

abbrev reboot : Notification
reboot = record {
  displayed = false;
  id = "1518776436-2593";
  severity = "restart";
  messages = ("cs", "REBOOT1 CS") ∷ ("en", "REBOOT1 EN") ∷ [];
}

abbrev start : State
start = record { notification_counter = 0; notifications = reboot ∷ [] }

start-HasEnglish : HasEnglish start.notifications
unfolding lookup
start-HasEnglish = (λ e. ground arith, tt)
