-- ===== src/RouterNotifications/Laws.antt =====
-- Listing the notifications in a language, and the methods that change them
-- (foris_controller_modules/router_notifications/handlers/mock.py).
use foris_controller.Prelude.{
  ℕ, String, ◌==◌, ◌≡◌, ◌≢◌, refl, true, false, none, List, [], ◌∷◌, map, All, All-append, ap₂, suc,
  lookup, if◌then◌else◌, arith, Bool-cases, Option-cases, inl, inr,
}
use foris_controller.Exceptions.{ok}
use foris_controller.RouterNotifications.{
  Notification, State, Listed, listed, message, list_one, list, is_in, mark_as_displayed, create,
}

-- Every notification has a message in English.
abbrev pub HasEnglish : List Notification → Type 0
HasEnglish = All (λ n. message "en" n ≢ none)

module _ (iso_of_id : String → String) (lang : String) where
  list_one_total :
      (n : Notification)
      → message "en" n ≢ none
      → (r : Listed) × (list_one iso_of_id lang n ≡ ok r) × (r.id ≡ n.id)
  unfolding list_one
  list_one_total n h = elim (Option-cases (message lang n)) [
    | inr (m, own) ↦ (listed iso_of_id n lang m, ground (arith, own), refl)
    | inl missing ↦ elim (Option-cases (message "en" n)) [
      | inr (m, english) ↦ (listed iso_of_id n "en" m, ground (arith, missing, english), refl)
      | inl nothing ↦ absurd (h nothing)
    ]
  ]

  -- Where every notification has a message in English that is not empty, `list` raises in no
  -- language, and lists all notifications in order.
  pub list_total :
      (ns : List Notification)
      → HasEnglish ns
      → (res : List Listed) × (list iso_of_id lang ns ≡ ok res)
        × (map (λ r. r.id) res ≡ map (λ n. n.id) ns)
  unfolding list
  list_total [] h = ([], refl, refl)
  list_total (n ∷ ns) h =
      let (r, one, same) = list_one_total n h.0 in
      let (res, rest, all_same) = list_total ns h.1 in
      (r ∷ res, rw (one, rest) refl, ap₂ ◌∷◌ same all_same)

marked-HasEnglish :
    (ids : List String) (ns : List Notification)
    → HasEnglish ns
    → HasEnglish (map (λ n. if is_in n.id ids then record n { displayed = true } else n) ns)
marked-HasEnglish ids [] h = tt
marked-HasEnglish ids (n ∷ ns) h = elim (Bool-cases (is_in n.id ids)) [
  | inl marked ↦ rw marked (h.0, marked-HasEnglish ids ns h.1)
  | inr other ↦ rw other (h.0, marked-HasEnglish ids ns h.1)
]

-- mark_as_displayed, and create with a message that is not empty, keep a message in English for every
-- notification.
pub notifications-HasEnglish :
    (ids : List String) (new_id : ℕ → String) (msg severity : String) (s : State)
    → HasEnglish s.notifications
    → (msg == "") ≡ false
    → HasEnglish (mark_as_displayed ids s).notifications
      × HasEnglish (create new_id msg severity s).notifications
unfolding mark_as_displayed create lookup
notifications-HasEnglish ids new_id msg severity s h given =
    (marked-HasEnglish ids s.notifications h, All-append _ s.notifications _ h (english, tt))
  where
    english :
        message "en" (record {
          displayed = false;
          id = new_id (suc s.notification_counter);
          severity = severity;
          messages = ("en", msg) ∷ ("cs", msg) ∷ [];
        })
        ≢ none
    english e = ground (arith, given)
