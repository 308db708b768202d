-- ===== src/RouterNotifications.antt =====
-- foris_controller_modules/router_notifications/handlers/mock.py: the notifications. The rendering of
-- the time in an id, and the id of a new notification, which is made of the clock and the counter,
-- are parameters.
pub mod Laws
mod Tests
use foris_controller.Prelude.{
  ℕ, suc, String, ◌==◌, Bool, true, false, ◌||◌, Option, none, some, List, [], ◌∷◌, ◌++◌, any, map,
  Dict, lookup, if◌then◌else◌,
}
use foris_controller.Exceptions.{Raised, key_error, Result, ok, err, ◌>>=◌}

pub record Notification : Type 0 where
  pub displayed : Bool
  pub id : String
  pub severity : String
  pub messages : Dict String

pub record State : Type 0 where
  pub notification_counter : ℕ
  pub notifications : List Notification

abbrev three : String → String → String → Dict String
three cs en nb = ("cs", cs) ∷ ("en", en) ∷ ("nb_NO", nb) ∷ []

abbrev default : String → String → Dict String → Notification
default id severity messages = record {
  displayed = false;
  id = id;
  severity = severity;
  messages = messages;
}

abbrev pub initial : State
initial = record {
  notification_counter = 0;
  notifications =
      default "1518776436-2593" "restart" (three "REBOOT1 CS" "REBOOT1 EN" "REBOOT1 nb_NO")
      ∷ default "1518776436-2598" "restart" (three "REBOOT2 CS" "REBOOT2 EN" "REBOOT2 nb_NO")
      ∷ default "1518776436-2603" "news" (three "NEWS1 CS" "NEWS1 EN" "NEWS1 nb_NO")
      ∷ default "1518776436-2608" "news" (three "NEWS2 CS" "NEWS2 EN" "NEWS2 nb_NO")
      ∷ default "1518776436-2613" "error" (three "ERROR1 CS" "ERROR1 EN" "ERROR1 nb_NO")
      ∷ default "1518776436-2618" "error" (three "ERROR2 CS" "ERROR2 EN" "ERROR2 nb_NO")
      ∷ default "1518776436-2623" "update" (three "UPDATE1 CS" "UPDATE1 EN" "UPDATE1 nb_NO")
      ∷ default "1518776436-2628" "update" (three "UPDATE2 CS" "UPDATE2 EN" "UPDATE2 nb_NO")
      ∷ [];
}

pub record Listed : Type 0 where
  pub id : String
  pub displayed : Bool
  pub severity : String
  pub created_at : String
  pub msg : String
  pub lang : String

-- A message that is there and not empty, as `if msg` asks for.
abbrev pub message : String → Notification → Option String
message lang n = elim (lookup lang n.messages) [
  | none ↦ none
  | some msg ↦ if msg == "" then none else some msg
]

module _ (iso_of_id : String → String) where
  abbrev pub listed : Notification → String → String → Listed
  listed n lang msg = record {
    id = n.id;
    displayed = n.displayed;
    severity = n.severity;
    created_at = iso_of_id n.id;
    msg = msg;
    lang = lang;
  }

  -- The message in the language, or in English.
  unfoldable pub list_one : String → Notification → Result Listed
  list_one lang n = elim (message lang n) [
    | some msg ↦ ok (listed n lang msg)
    | none ↦ elim (message "en" n) [
      | some msg ↦ ok (listed n "en" msg)
      | none ↦ err (key_error lang)
    ]
  ]

  unfoldable pub list : String → List Notification → Result (List Listed)
  list lang [] = ok []
  list lang (n ∷ ns) = do new ← list_one lang n; res ← list lang ns; ok (new ∷ res)

abbrev pub is_in : String → List String → Bool
is_in i ids = any (λ j. i == j) ids

unfoldable pub mark_as_displayed : List String → State → State
mark_as_displayed ids s = record s {
  notifications =
      map (λ n. if is_in n.id ids then record n { displayed = true } else n) s.notifications;
}

-- `new_id` renders the time and the counter.
unfoldable pub create : (ℕ → String) → String → String → State → State
create new_id msg severity s = record {
  notification_counter = suc s.notification_counter;
  notifications =
      s.notifications
      ++ record {
        displayed = false;
        id = new_id (suc s.notification_counter);
        severity = severity;
        messages = ("en", msg) ∷ ("cs", msg) ∷ [];
      }
        ∷ [];
}
