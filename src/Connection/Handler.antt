-- ===== src/Connection/Handler.antt =====
-- The request, the result of the Lua handler, and the relays of `QmqpRelayConnection`
-- (src/Connection.cxx); and the events that a connection can meet.
pub mod Invariant
pub mod LuaResult
pub mod Request
pub mod Steps
pub mod EndToEnd
pub mod Received
pub mod Delivered
mod Tests
use qrelay.Common.{
  ℕ, Bool, true, false, ◌||◌, ◌&&◌, not, List, [], ◌∷◌, ◌++◌, Option, none, some, Bytes, codes,
  if◌then◌else◌, ◌>>=◌, decimal, is_some,
}
use qrelay.Libcommon.{Text, Address, Strip}
use qrelay.Qmqp.{ParseResult, success, malformed, bad_address, too_many_recipients}
use qrelay.MutableMail
use qrelay.MutableMail.{MutableMail, make_mutable_mail}
use qrelay.Action.{
  Action, ActionType, undefined, discard, reject, connect, exec, exec_raw, is_positive,
}
use qrelay.Relay.Basic.{HandlerCall}
use qrelay.Connection.{
  Connection, Cred, State, init, received, lua, not_relaying, relaying, Send, Relay, is_init,
  is_lua, finish, on_relay_call, on_relay_timeout, on_lua_error, on_error, on_disconnect,
}

-- `sizeof(received_buffer)`.
abbrev pub received_buffer_size : ℕ
received_buffer_size = 256

-- "Received: from PID={} UID={} with QMQP\r\n".
unfoldable pub received_line : Cred → Bytes
received_line cred =
    codes "Received: from PID="
    ++ (decimal cred.pid
        ++ (codes " UID=" ++ (decimal cred.uid ++ (codes " with QMQP" ++ 13 ∷ 10 ∷ []))))

abbrev pub received_lines : Option Cred → List Bytes
received_lines none = []
received_lines (some cred) = received_line cred ∷ []

-- `AssembleHeaders`.
unfoldable pub assemble_headers : Connection → MutableMail → List Bytes
unfolding received_line
assemble_headers c mail = mail.headers ++ received_lines c.cred

-- What the Lua handler may do to the mail.
pub data Edit : Type 0 where
  inserts_header : Bytes → Bytes → Edit
  sets_sender : Bytes → Edit
  sets_account : Bytes → Edit

unfoldable pub apply_edit : MutableMail → Edit → MutableMail
unfolding MutableMail.insert_header MutableMail.set_sender
apply_edit m (inserts_header name value) = MutableMail.insert_header m name value
apply_edit m (sets_sender sender) = MutableMail.set_sender m sender
apply_edit m (sets_account account) = record m { account = account }

-- What can happen to a connection. The result of a Lua handler is an action, or something else.
-- A relay may call its handler while it is started, and with the call goes what the answer to the
-- client does.
pub data Event : Type 0 where
  requests : Bytes → Event
  edits : Edit → Event
  lua_finishes : Option Action → Option HandlerCall → Event
  lua_fails relay_times_out client_fails client_disconnects : Event
  relay_calls : HandlerCall → Event

module _ (truncate : Bytes → ℕ → Bytes) where
  abbrev deliver : Option HandlerCall → Send → Connection → Option Connection
  deliver none answer c = some c
  deliver (some call) answer c = on_relay_call truncate c call answer

  -- `DoConnect`, `DoExec` and `DoRawExec`, which differ in the class of the relay.
  pub start_relay :
      Connection → Action → MutableMail → Option HandlerCall → Send → Option Connection
  unfolding assemble_headers on_relay_call
  start_relay c action mail call answer =
      let relay : Relay = record {
        action = action;
        mail = mail.mail;
        headers = assemble_headers c mail;
      } in
      deliver call answer
        (record c { timer = is_positive action.timeout || c.timer; relay_operation = some relay })

  pub do_type :
      ActionType → Connection → Action → MutableMail → Option HandlerCall → Send → Option Connection
  unfolding start_relay finish
  do_type undefined c action mail call answer = none
  do_type discard c action mail call answer =
      finish truncate (record c { state = not_relaying }) (codes "Kdiscarded") answer
  do_type reject c action mail call answer =
      finish truncate (record c { state = not_relaying }) (codes "Drejected") answer
  do_type connect c action mail call answer =
      start_relay (record c { state = relaying }) action mail call answer
  do_type exec c action mail call answer =
      start_relay (record c { state = relaying }) action mail call answer
  do_type exec_raw c action mail call answer =
      start_relay (record c { state = relaying }) action mail call answer

  -- `Do`.
  unfoldable pub do_action :
      Connection → Action → MutableMail → Option HandlerCall → Send → Option Connection
  unfolding do_type
  do_action c action mail call answer = do_type action.type c action mail call answer

  pub with_action :
      Connection
      → Option MutableMail
      → Option Action
      → Option HandlerCall
      → Send
      → Option Connection
  unfolding do_action on_lua_error
  with_action c none action call answer = none
  with_action c (some mail) none call answer = on_lua_error truncate c answer
  with_action c (some mail) (some action) call answer = do_action c action mail call answer

  -- `OnLuaFinished`: `none` for the action is a value of another type, for which it throws.
  unfoldable pub on_lua_finished :
      Connection → Option Action → Option HandlerCall → Send → Option Connection
  unfolding with_action
  on_lua_finished c action call answer =
      if not (is_lua c.state) then none else with_action c c.mail_ptr action call answer

  module _ (text : Text) (address : Address) (strip : Strip) where
    -- `OnRequest` behind `Parse`: a mail is kept for the Lua handler, which is then resumed.
    with_parsed : Connection → Send → MutableMail × ParseResult → Option Connection
    unfolding finish
    with_parsed c answer (mail, success) =
        let stripped = record (mail.mail) { message = strip.strip_left mail.message } in
        some (record c { mail_ptr = some (record mail { mail = stripped }); state = lua })
    with_parsed c answer (mail, malformed) = finish truncate c (codes "Dmalformed input") answer
    with_parsed c answer (mail, bad_address) = finish truncate c (codes "Dbad address") answer
    with_parsed c answer (mail, too_many_recipients) =
        finish truncate c (codes "Dtoo many recipients") answer

    -- `OnRequest`.
    unfoldable pub on_request : Connection → Bytes → Send → Option Connection
    unfolding with_parsed
    on_request c payload answer =
        if not (is_init c.state)
        then none
        else MutableMail.parse text address (make_mutable_mail payload)
          >>= with_parsed (record c { state = received }) answer

    abbrev pub edited : Connection → Edit → Option MutableMail → Option Connection
    edited c edit none = some c
    edited c edit (some mail) = some (record c { mail_ptr = some (apply_edit mail edit) })

    -- One event.
    unfoldable pub step : Connection → Event → Send → Option Connection
    unfolding on_request on_lua_finished on_lua_error on_relay_timeout on_error on_disconnect
        on_relay_call apply_edit
    step c (requests payload) answer = on_request c payload answer
    step c (edits edit) answer = edited c edit c.mail_ptr
    step c (lua_finishes action call) answer = on_lua_finished c action call answer
    step c lua_fails answer = on_lua_error truncate c answer
    step c relay_times_out answer = on_relay_timeout truncate c answer
    step c client_fails answer = on_error truncate c
    step c client_disconnects answer = on_disconnect truncate c
    step c (relay_calls call) answer = on_relay_call truncate c call answer
