-- ===== src/Router/Laws.antt =====
-- What process_message of foris_controller/message_router.py promises to the message bus.
use foris_controller.Prelude.{
  String, ◌==◌, eq_iff, ◌≡◌, refl, ◌≢◌, true, Option, none, some, Option-cases, inl, inr, sym, ◌∙◌,
  ap, if◌then◌else◌, lookup, arith,
}
use foris_controller.Json.{Value, str, dict_of, Fields, no_field, get, get_or}
use foris_controller.Router.{
  Raised, exception, base, Result, ok, err, Module, App, build_error_msg, perform_action, finish,
  format, call_action, action_of, is_request, process_message,
}

-- The reply is of kind "reply" and names the message's module and action.
pub record Answers (message reply : Fields) : Type 0 where
  pub kind : get reply "kind" ≡ some (str "reply")
  pub of_module : get reply "module" ≡ some (get_or message "module" (str "?"))
  pub of_action : get reply "action" ≡ some (get_or message "action" (str "?"))

is_request-eq : (v : Value) → is_request v ≡ true → v ≡ str "request"
is_request-eq (str kind) h = ap str ((eq_iff kind "request").0 h)
is_request-eq _ h = cc

-- What the schemas require of every message that they accept.
abbrev pub RequiresHead : {S : Type 0} → App S → Type 0
RequiresHead app =
    (m : Fields)
    → app.validator (dict_of m) ≡ true
    → (get m "kind" ≢ none) × ((name : String) × (get m "module" ≡ some (str name)))

-- No method of a loaded module raises what `except Exception` lets through.
abbrev pub RaisesExceptions : {S : Type 0} → App S → Type 0
RaisesExceptions {S} app =
    (name : String) (m : Module S) (action : String) (v : Value) (s : S) (text : String)
    → lookup name app.modules ≡ some m
    → (perform_action m action v s).0 ≢ err (base text)

module _ {S : Type 0} (app : App S) (message : Fields) (s : S) where
  -- A reply that process_message returns is of kind "reply" and names the message's module and action.
  pub process_message-Answers :
      {s' : S} {reply : Fields}
      → process_message app message s ≡ (ok reply, s')
      → Answers message reply
  unfolding process_message build_error_msg
  process_message-Answers e = ground arith

  call_action-ne-base :
      (m : Module S)
      → ((action : String) (v : Value) (text : String)
          → (perform_action m action v s).0 ≢ err (base text))
      → (text : String) → (call_action app m message s).0 ≢ err (base text)
  unfolding call_action
  call_action-ne-base m h text = elim (Option-cases (get message "action")) [
    | inl no_action ↦ rw (no_action, call_action) (λ e. cc)
    | inr (action, is_action) ↦
        rw (is_action, call_action)
          (h (format app action) (get_or message "data" (dict_of no_field)) text)
  ]

  finish-ne-err :
      (name : Value) (o : Result Value × S)
      → ((text : String) → o.0 ≢ err (base text))
      → (e : Raised) → (finish app message name (action_of message) o).0 ≢ err e
  unfolding finish
  finish-ne-err name (ok v, t) h e = cc
  finish-ne-err name (err (exception kind text), t) h e = cc
  finish-ne-err name (err (base text), t) h e = absurd (h text refl)

  -- The module that the message may reach.
  pub admitted : Option (Module S)
  admitted = elim (get message "module") [
    | some (str name) ↦
        if app.validator (dict_of message)
        then (elim (get message "kind") [
          | some (str kind) ↦ if kind == "request" then lookup name app.modules else none
          | _ ↦ none
        ])
        else none
    | _ ↦ none
  ]

  -- The router changes no state itself: a valid request to a loaded module leaves what the call of the
  -- action leaves, any other message leaves the state as it is.
  pub process_message-state :
      (process_message app message s).1
      ≡ elim admitted [ none ↦ s | some m ↦ (call_action app m message s).1 ]
  unfolding process_message admitted
  process_message-state = ground arith

  -- A message that is let through is answered by what `finish` makes of the module's outcome.
  reach_of_module :
      (m : Module S) (v : Value)
      → get message "module" ≡ some v
      → admitted ≡ some m
      → (name : String) × (v ≡ str name)
        × (lookup name app.modules ≡ some m)
        × (process_message app message s
            ≡ finish app message (str name) (action_of message) (call_action app m message s))
  unfolding process_message admitted
  reach_of_module m (str name) e a = (name, refl, ground arith, ground (arith))
  reach_of_module m _ e a = absurd (ground arith)

  reach :
      (m : Module S)
      → admitted ≡ some m
      → (name : String) × (lookup name app.modules ≡ some m)
        × (process_message app message s
            ≡ finish app message (str name) (action_of message) (call_action app m message s))
  reach m a = elim (Option-cases (get message "module")) [
    | inl missing ↦ absurd (unfold admitted in ground arith)
    | inr (v, found) ↦
        let (name, is_name, loaded, e) = reach_of_module m v found a in (name, loaded, e)
  ]

  turned_away :
      RequiresHead app → admitted ≡ none → (e : Raised) → (process_message app message s).0 ≢ err e
  unfolding process_message admitted
  turned_away head a e = ground (arith, head message)

  -- With a validator that accepts a message only if it has a kind and the name of a module, and modules
  -- that raise exceptions only, process_message raises nothing.
  pub process_message_total :
      RequiresHead app
      → RaisesExceptions app
      → (e : Raised) → (process_message app message s).0 ≢ err e
  process_message_total head raises e = elim (Option-cases admitted) [
    | inl no_module ↦ turned_away head no_module e
    | inr (m, a) ↦
        let (name, loaded, same) = reach m a in
        rw same (
          finish-ne-err _ _
            (call_action-ne-base m (λ action v text. raises name m action v s text loaded)) e)
  ]

  finish-data :
      (name : Value) (o : Result Value × S) (s' : S) (reply : Fields)
      → finish app message name (action_of message) o ≡ (ok reply, s')
      → get reply "data" ≢ none
      → (result : Value) × (o ≡ (ok result, s'))
        × (get reply "data" ≡ some result)
        × (app.validator (dict_of reply) ≡ true)
  unfolding finish build_error_msg get
  finish-data name (ok result, t) s' reply e d = (result, ground arith, ground arith, ground arith)
  finish-data name (err (exception kind text), t) s' reply e d = absurd (ground arith)
  finish-data name (err (base text), t) s' reply e d = cc

  -- A reply with data comes from a valid request to a loaded module: the action was called and
  -- returned that data, and the reply passed the validator.
  pub process_message-data :
      (s' : S) (reply : Fields)
      → process_message app message s ≡ (ok reply, s')
      → get reply "data" ≢ none
      → (m : Module S) × (result : Value) × (admitted ≡ some m)
        × (call_action app m message s ≡ (ok result, s'))
        × (get reply "data" ≡ some result)
        × (app.validator (dict_of reply) ≡ true)
  process_message-data s' reply e d = elim (Option-cases admitted) [
    | inl no_module ↦ absurd (unfold process_message build_error_msg admitted get in ground arith)
    | inr (m, a) ↦
        let (name, loaded, same) = reach m a in
        let (result, called, is_data, fits) = finish-data _ _ s' reply (sym same ∙ e) d in
        (m, result, a, called, is_data, fits)
  ]
