-- ===== src/Router.antt =====
-- foris_controller/message_router.py and `perform_action` of foris_controller/module_base.py.
-- The JSON-schema validator is the foris-schema package; the rendering of values and of the
-- traceback are parameters too. Logging and timing are left out.
pub mod Laws
mod Tests
use Prim.Native.String.{◌++◌}
use foris_controller.Prelude.{
  String, ◌==◌, Bool, false, Option, none, some, Dict, lookup, if◌then◌else◌,
}
use foris_controller.Json.{
  Value, null, str, list_of, dict_of, no_item, item, Fields, no_field, field, get, get_or,
}

-- `base` stands for what `except Exception` does not catch.
pub data Raised : Type 0 where
  exception : (kind text : String) → Raised
  base : String → Raised

pub data Result {ℓ} (A : Type ℓ) : Type ℓ where
  ok : A → Result A
  err : Raised → Result A

-- A loaded module: its methods by name, over the state `S` of the handlers and of the bus.
pub record Module (S : Type 0) : Type 0 where
  pub methods : Dict (Value → S → Result Value × S)

-- What process_message takes from app_info, and the texts of `str` and `format_exc`.
pub record App (S : Type 0) : Type 0 where
  pub validator : Value → Bool
  pub modules : Dict (Module S)
  pub str_of : Value → String
  pub format_exc : String

abbrev pub singleton : Value → Value
singleton v = list_of (item v no_item)

abbrev pub described : String → Value
described text = singleton (dict_of (field "description" (str text) no_field))

abbrev pub traced : String → String → Value
traced text trace =
    singleton (dict_of (field "description" (str text) (field "stacktrace" (str trace) no_field)))

unfoldable pub build_error_msg : Fields → Value → Fields
unfolding get_or
build_error_msg orig_msg errors = field "module" (get_or orig_msg "module" (str "?")) (
    field "kind" (str "reply")
      (field "action" (get_or orig_msg "action" (str "?")) (field "errors" errors no_field)))

abbrev pub internal_error : String → String → String
internal_error text kind = "Internal error " ++ text ++ "('" ++ kind ++ "')"

abbrev pub action_of : Fields → Value
action_of message = get_or message "action" null

-- message["kind"] != "request"
abbrev pub is_request : Value → Bool
is_request (str kind) = kind == "request"
is_request _ = false

module _ {S : Type 0} where
  -- `getattr` raises for a missing method, so the test under it never fires.
  unfoldable pub perform_action : Module S → String → Value → S → Result Value × S
  unfolding lookup
  perform_action m action argument s = elim (lookup ("action_" ++ action) m.methods) [
    | none ↦ (err (exception "AttributeError" ("action_" ++ action)), s)
    | some method ↦ method argument s
  ]

  module _ (app : App S) where
    -- validate(message) under try/except ValidationError
    unfoldable pub validate : Fields → Bool
    validate message = app.validator (dict_of message)

    unfoldable pub make_reply : Fields → Value → Value → Value → Fields
    unfolding validate build_error_msg
    make_reply message module_name action result =
        let reply =
          field "kind" (str "reply")
            (field "module" module_name (field "action" action (field "data" result no_field))) in
        if validate reply
        then reply
        else build_error_msg message
            (traced ("Incorrect output. " ++ app.str_of (dict_of reply)) app.format_exc)

    -- The part after the module's method has returned or raised.
    unfoldable pub finish : Fields → Value → Value → Result Value × S → Result Fields × S
    unfolding make_reply
    finish message module_name action (ok result, s) =
        (ok (make_reply message module_name action result), s)
    finish message module_name action (err (exception kind text), s) =
        (ok (build_error_msg message (traced (internal_error text kind) app.format_exc)), s)
    finish message module_name action (err (base text), s) = (err (base text), s)

    abbrev pub missing : String → S → Result Value × S
    missing key s = (err (exception "KeyError" key), s)

    -- '%s' % value
    abbrev pub format : Value → String
    format (str s) = s
    format v = app.str_of v

    -- The call under `try`: the lookup of the action stands there too.
    unfoldable pub call_action : Module S → Fields → S → Result Value × S
    unfolding perform_action get get_or
    call_action m message s = elim (get message "action") [
      | none ↦ missing "action" s
      | some action ↦ perform_action m (format action) (get_or message "data" (dict_of no_field)) s
    ]

    abbrev pub not_found : Fields → Value → Fields
    not_found message name =
        build_error_msg message
          (described ("Internal error (module not found '" ++ format name ++ "')."))

    -- message["module"] in app_info["modules"]: a list or a dict is no key
    unfoldable pub route : Fields → Value → S → Result Fields × S
    unfolding call_action finish lookup
    route message (str name) s = elim (lookup name app.modules) [
      | none ↦ (ok (not_found message (str name)), s)
      | some m ↦ finish message (str name) (action_of message) (call_action m message s)
    ]
    route message (list_of xs) s = (err (exception "TypeError" "unhashable type: 'list'"), s)
    route message (dict_of fs) s = (err (exception "TypeError" "unhashable type: 'dict'"), s)
    route message name s = (ok (not_found message name), s)

    unfoldable pub process_request : Fields → S → Result Fields × S
    unfolding route get
    process_request message s = elim (get message "module") [
      | none ↦ (err (exception "KeyError" "module"), s)
      | some name ↦ route message name s
    ]

    unfoldable pub process_message : Fields → S → Result Fields × S
    unfolding process_request validate get build_error_msg
    process_message message s =
        if validate message
        then elim (get message "kind") [
          | none ↦ (err (exception "KeyError" "kind"), s)
          | some kind ↦ if is_request kind then process_request message s else (
            ok (
                build_error_msg message
                  (described "Wrong message kind (only request are allowed).")),
            s,
          )
        ]
        else (
          ok (
              build_error_msg message
                (traced ("Incorrect input. " ++ app.str_of (dict_of message)) app.format_exc)),
          s,
        )
