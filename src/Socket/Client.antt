-- ===== src/Socket/Client.antt =====
-- ClientSocketHandler of foris_controller/client_socket.py: what it does with a message, and its
-- loop. The decoding of JSON, the validator, the sender of the bus and the sender of notifications
-- are parameters, over a state `S` of what is behind them; so is the text of an exception's type.
-- The validator's `validate` answers whether a message passes, `validate_verbose` what it raises.
pub mod Ends
use foris_controller.Prelude.{
  ℕ, zero, suc, String, ◌==◌, Bool, true, false, Option, none, some, List, [], ◌∷◌, ◌++◌, length,
  if◌then◌else◌,
}
use foris_controller.Exceptions.{Raised, key_error, attribute_error, value_error, Result, ok, err}
use foris_controller.Json.{
  Value, dict_of, list_of, str, num, bool, null, Fields, field, no_field, get, get_or,
}
use foris_controller.Socket.{Bytes, Conn, recv, unpack, fill_client}
use foris_controller.Socket.Server.{frame}

pub record Peers (S : Type 0) : Type 0 where
  pub loads : Bytes → Option Value
  pub dumps : Value → Bytes
  pub validate : Value → Bool
  pub validate_verbose : Value → Option Raised
  pub send : (module_name action payload : Value) → S → Result Value × S
  pub notify : (module_name action payload : Value) → S → Option Raised × S

-- One turn of the loop: it is broken, or goes on after it has sent something.
pub data Turn (S : Type 0) : Type 0 where
  broken : S → Turn S
  next : Bytes → Conn → S → Turn S

abbrev type_name : Value → String
type_name (dict_of d) = "dict"
type_name (list_of items) = "list"
type_name (str s) = "str"
type_name (num n) = "int"
type_name (bool b) = "bool"
type_name null = "NoneType"

-- d["module"], d["action"] and d.get("data", None)
unfoldable pub addressed :
    {S A : Type 0} → Fields → (Value → Value → Value → S → Result A × S) → S → Result A × S
unfolding get_or
addressed d f s = elim (get d "module") [
  | none ↦ (err (key_error "module"), s)
  | some module_name ↦ elim (get d "action") [
    | none ↦ (err (key_error "action"), s)
    | some action ↦ f module_name action (get_or d "data" null) s
  ]
]

abbrev returned : Option Raised → Result Bytes
returned none = ok []
returned (some e) = err e

module _ {S : Type 0} (peers : Peers S) where
  unfoldable pub check_msg : Value → Result Bytes
  check_msg msg = if peers.validate msg then ok [] else returned (peers.validate_verbose msg)

  unfoldable pub forward_notification : Fields → S → Result Bytes × S
  unfolding addressed
  forward_notification notification =
      addressed notification
        (λ m a payload s. let (raised, s') = peers.notify m a payload s in (returned raised, s'))

  abbrev pub reply : (module_name action msg : Value) → Value
  reply module_name action msg = dict_of (
      field "module" module_name
        (field "action" action (field "kind" (str "reply") (field "data" msg no_field))))

  unfoldable pub reply_to_request : Fields → S → Result Bytes × S
  unfolding addressed
  reply_to_request request = addressed request (λ m a payload s.
      let (answer, s') = peers.send m a payload s in
      elim answer [ err e ↦ (err e, s') | ok msg ↦ (frame (peers.dumps (reply m a msg)), s') ])

  by_kind : Value → Fields → S → Result Bytes × S
  unfolding forward_notification reply_to_request
  by_kind (str kind) d s =
      if kind == "notification"
      then forward_notification d s
      else if kind == "request"
      then reply_to_request d s
      else (returned (peers.validate_verbose (dict_of d)), s)
  by_kind _ d s = (returned (peers.validate_verbose (dict_of d)), s)

  -- parsed.get is there only for a dict.
  unfoldable pub respond : Value → S → Result Bytes × S
  unfolding by_kind get_or
  respond (dict_of d) s = by_kind (get_or d "kind" null) d s
  respond v s = (err (attribute_error (type_name v)), s)

  abbrev pub with_sent : Result Bytes × S → Conn → Turn S
  with_sent (ok bs, s) rest = next bs rest s
  with_sent (err e, s) rest = broken s

  abbrev pub with_check : Result Bytes → Value → Conn → S → Turn S
  with_check (ok _) parsed rest s = with_sent (respond parsed s) rest
  with_check (err e) parsed rest s = broken s

  abbrev pub with_parsed : Option Value → Conn → S → Turn S
  with_parsed none rest s = broken s
  with_parsed (some parsed) rest s = with_check (check_msg parsed) parsed rest s

  abbrev pub with_message : Option (Result (Bytes × Conn)) → S → Option (Turn S)
  with_message none s = none
  with_message (some (err e)) s = some (broken s)
  with_message (some (ok (message, rest))) s = some (with_parsed (peers.loads message) rest s)

  unfoldable pub read_message : ℕ → Conn → S → Option (Turn S)
  read_message n c s = let (first, c') = recv n c in with_message (fill_client n n first c') s

  abbrev pub with_length : Result ℕ → Conn → S → Option (Turn S)
  with_length (err e) c s = some (broken s)
  with_length (ok n) c s = read_message n c s

  abbrev pub with_header : Bytes → Conn → S → Option (Turn S)
  with_header [] c s = some (broken s)
  with_header (b ∷ bs) c s = with_length (unpack (b ∷ bs)) c s

  unfoldable pub turn : Conn → S → Option (Turn S)
  turn c s = let (length_data, c') = recv 4 c in with_header length_data c' s

  -- while True, with so many turns.
  unfoldable pub handle_client : ℕ → Conn → S → Option (Bytes × S)
  handle_client zero c s = none
  handle_client (suc turns) c s = elim (turn c s) [
    | none ↦ none
    | some (broken s') ↦ some ([], s')
    | some (next bs rest s') ↦ elim (handle_client turns rest s') [
      | none ↦ none
      | some (sent, s'') ↦ some (bs ++ sent, s'')
    ]
  ]
