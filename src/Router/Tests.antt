-- ===== src/Router/Tests.antt =====
-- The router on a small application with one module.
use foris_controller.Prelude.{
  String, ◌≡◌, refl, ◌≢◌, Bool, true, false, ◌&&◌, Option, none, some, [], ◌∷◌, lookup, arith,
}
use foris_controller.Json.{Value, str, dict_of, Fields, field, no_field, get}
use foris_controller.Router.{
  exception, base, Result, ok, err, Module, App, perform_action, process_message,
}
use foris_controller.Router.Laws.{
  Answers, RequiresHead, RaisesExceptions, process_message-Answers, process_message_total,
}

-- A handler that remembers the last text that it was given, and one that fails.
abbrev remember : Value → String → Result Value × String
remember (str s) old = (ok (str old), s)
remember _ old = (err (exception "TypeError" "text wanted"), old)

abbrev memo : Module String
memo = record { methods = ("action_put", remember) ∷ [] }

abbrev has_text : Option Value → Bool
has_text (some (str s)) = true
has_text _ = false

abbrev accepts : Value → Bool
accepts (dict_of m) = has_text (get m "kind") && has_text (get m "module")
accepts _ = false

abbrev demo : App String
demo = record {
  validator = accepts;
  modules = ("memo", memo) ∷ [];
  str_of = λ v. "{}";
  format_exc = "Traceback";
}

abbrev put : Fields
put =
    field "kind" (str "request")
      (field "module" (str "memo") (field "action" (str "put") (field "data" (str "new") no_field)))

abbrev put_reply : Fields
put_reply =
    field "kind" (str "reply")
      (field "module" (str "memo") (field "action" (str "put") (field "data" (str "old") no_field)))

put_runs : process_message demo put "old" ≡ (ok put_reply, "new")
unfolding process_message
put_runs = refl

text_of : (o : Option Value) → has_text o ≡ true → (t : String) × (o ≡ some (str t))
text_of (some (str t)) h = (t, refl)
text_of (some _) h = cc
text_of none h = cc

remember-exceptions : (v : Value) (s text : String) → (remember v s).0 ≢ err (base text)
remember-exceptions (str t) s text e = cc
remember-exceptions _ s text e = cc

demo-RequiresHead : RequiresHead demo
demo-RequiresHead m h =
    (ground (arith, text_of (get m "kind")), text_of (get m "module") (ground arith))

memo-exceptions :
    (action : String) (v : Value) (s text : String)
    → (perform_action memo action v s).0 ≢ err (base text)
unfolding perform_action
memo-exceptions action v s text = ground (arith, remember-exceptions v s text)

demo-RaisesExceptions : RaisesExceptions demo
unfolding lookup
demo-RaisesExceptions name m action v s text e =
    let is_memo : m ≡ memo = ground arith in rw is_memo (memo-exceptions action v s text)

process_message-Answers_example : Answers put put_reply
process_message-Answers_example = process_message-Answers demo put "old" put_runs

process_message_total_example :
    (process_message demo no_field "old").0 ≢ err (base "KeyboardInterrupt")
process_message_total_example =
    process_message_total demo no_field "old" demo-RequiresHead demo-RaisesExceptions
      (base "KeyboardInterrupt")
