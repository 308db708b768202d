-- ===== src/Socket/Tests.antt =====
-- Connections on which the bytes of a message come in several pieces, or not all of them.
use foris_controller.Prelude.{
  ℕ, ◌+◌, ◌≡◌, refl, true, false, none, some, List, [], ◌∷◌, map, take, drop, arith, All,
}
use foris_controller.Exceptions.{ok}
use foris_controller.Json.{dict_of, str, field, no_field, get}
use foris_controller.Socket.{Bytes, Conn, coming, recv, unpack, pack, fill_server, fill_client}
use foris_controller.Socket.Read.{fill_server_stuck}
use foris_controller.Socket.Server.{Answer, not_json, replied, one_message, handle}
use foris_controller.Socket.Server.Pieces.{glue}
use foris_controller.Socket.Server.Frames.{
  Sent, IsSendable, deliver, message_of, answers, handle-deliver,
}
use foris_controller.Socket.Client.{
  Peers, addressed, check_msg, forward_notification, reply_to_request, respond, read_message, turn,
  handle_client,
}
use foris_controller.Socket.Client.Ends.{handle_client-ends}

abbrev pieces : Conn
pieces = (2 ∷ 3 ∷ []) ∷ (4 ∷ 5 ∷ 6 ∷ []) ∷ []

filled : fill_client 4 4 (1 ∷ []) pieces ≡ some (ok (1 ∷ 2 ∷ 3 ∷ 4 ∷ [], (5 ∷ 6 ∷ []) ∷ []))
unfolding fill_client recv take drop
filled = refl

fill_server_stuck_example : fill_server 1000 9 (1 ∷ []) pieces ≡ none
fill_server_stuck_example =
    fill_server_stuck 1000 9 (1 ∷ []) pieces (omega arith) (unfold coming in omega arith)

-- Echoes a message, and counts them, but takes the empty one for no JSON.
abbrev echo : Bytes → ℕ → Answer × ℕ
echo [] n = (not_json, n)
echo (b ∷ bs) n = (replied (b ∷ bs), n + 1)

abbrev two_messages : List Sent
two_messages = ((7 ∷ []), (8 ∷ []) ∷ [], true) ∷ ([], [], false) ∷ []

-- The end of the first message, the length of the second one and no more stand in one piece.
delivered : deliver two_messages ≡ (2 ∷ 0 ∷ 0 ∷ 0 ∷ 7 ∷ []) ∷ (8 ∷ 0 ∷ 0 ∷ 0 ∷ 0 ∷ []) ∷ []
unfolding deliver glue coming
delivered = refl

echoed : handle echo 3 (deliver two_messages) 5 ≡ some (2 ∷ 0 ∷ 0 ∷ 0 ∷ 7 ∷ 8 ∷ [], 6)
unfolding handle one_message deliver glue recv take drop unpack pack fill_server coming
echoed = refl

two_messages-IsSendable : All IsSendable two_messages
unfolding coming
two_messages-IsSendable = ((omega arith, (omega arith, tt)), ((omega arith, tt), tt))

handle-deliver_example :
    handle echo 3 (deliver two_messages) 5 ≡ some (answers echo (map message_of two_messages) 5)
handle-deliver_example = handle-deliver echo 3 two_messages 5 two_messages-IsSendable (omega arith)

-- The bus answers null, and counts the requests.
abbrev counting : Peers ℕ
counting = record {
  loads = λ bs. some (
      dict_of (
        field "kind" (str "request")
          (field "module" (str "dns") (field "action" (str "get_settings") no_field))));
  dumps = λ v. 1 ∷ [];
  validate = λ v. true;
  validate_verbose = λ v. none;
  send = λ m a v n. (ok v, n + 1);
  notify = λ m a v n. (none, n);
}

abbrev asked : Conn
asked = (2 ∷ 0 ∷ 0 ∷ 0 ∷ 7 ∷ []) ∷ (8 ∷ []) ∷ (9 ∷ 0 ∷ 0 ∷ 0 ∷ []) ∷ []

counted : handle_client counting 3 asked 0 ≡ some (1 ∷ 0 ∷ 0 ∷ 0 ∷ 1 ∷ [], 1)
unfolding handle_client turn read_message respond reply_to_request forward_notification check_msg
    addressed recv take drop unpack pack fill_client get
counted = refl

handle_client-ends_example : (out : Bytes × ℕ) × (handle_client counting 11 asked 0 ≡ some out)
handle_client-ends_example = handle_client-ends counting 11 asked 0 (unfold coming in omega arith)
