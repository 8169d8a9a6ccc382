-- ===== src/Connection.antt =====
-- src/Connection.hxx and src/Connection.cxx: one client connection, from the request to the
-- response. `none` is a fault: a failed assertion. The responses, the log datagrams and the relay
-- that was started are kept in the state; the time of a log datagram is left out.
pub mod Handler
pub mod Finish
pub mod Session
use qrelay.Common.{
  ℕ, zero, suc, ◌+◌, ◌%◌, Bool, true, false, ◌||◌, ◌&&◌, not, List, [], ◌∷◌, ◌++◌, Option, none,
  some, Bytes, codes, if◌then◌else◌, ◌>>=◌, drop, length, size_mod, decimal, is_some,
}
use qrelay.Qmqp.{QmqpMail}
use qrelay.MutableMail.{MutableMail}
use qrelay.Datagram.{Datagram, make_datagram}
use qrelay.Action.{Action}
use qrelay.Relay.Basic.{HandlerCall, on_relay_response, on_relay_error}

pub data State : Type 0 where
  init received lua not_relaying relaying end : State

-- The peer's credentials, if the kernel gives them.
pub record Cred : Type 0 where
  pub pid : ℕ
  pub uid : ℕ
  pub gid : ℕ

-- What a relay was made for: the mail, and the headers that this process adds. The action's type
-- says which class of relay it is; Connection/Session makes the relay itself.
pub record Relay : Type 0 where
  pub action : Action
  pub mail : QmqpMail
  pub headers : List Bytes

-- `logging` says whether the instance has a log socket, `timer` whether `relay_timeout` is
-- scheduled.
pub record Connection : Type 0 where
  pub state : State
  pub mail_ptr : Option MutableMail
  pub cred : Option Cred
  pub logging : Bool
  pub relay_operation : Option Relay
  pub timer : Bool
  pub deleted : Bool
  pub responses : List Bytes
  pub logs : List Datagram

-- The constructor.
abbrev pub make_connection : Option Cred → Bool → Connection
make_connection cred logging = record {
  state = init;
  mail_ptr = none;
  cred = cred;
  logging = logging;
  relay_operation = none;
  timer = false;
  deleted = false;
  responses = [];
  logs = [];
}

-- What `SendResponse` does: it returns true, or it calls `OnError` and returns false, or it just
-- returns false.
pub data Send : Type 0 where
  sends fails waits : Send

abbrev is_end : State → Bool
is_end end = true
is_end _ = false

abbrev is_init : State → Bool
is_init init = true
is_init _ = false

abbrev is_lua : State → Bool
is_lua lua = true
is_lua _ = false

-- `state >= State::RELAYING`.
abbrev pub is_relaying : State → Bool
is_relaying relaying = true
is_relaying end = true
is_relaying _ = false

abbrev is_empty : Bytes → Bool
is_empty [] = true
is_empty (c ∷ s) = false

-- `truncate` is `Datagram::TruncateMessage`.
module _ (truncate : Bytes → ℕ → Bytes) where
  -- `Log` behind its assertion on `mail_ptr`. `logs` are the datagrams that `Net::Log::Send` is given;
  -- whether it fails makes no difference, since `Log` catches what it throws.
  log_mail : Connection → Bytes → Option MutableMail → Option Connection
  unfolding make_datagram
  log_mail c message none = none
  log_mail c message (some mail) =
      if not c.logging
      then some c
      else some (record c {
        logs = c.logs ++ make_datagram truncate (is_relaying c.state) mail message ∷ [];
        state = end;
        mail_ptr = none;
      })

  -- `QmqpRelayConnection::Log`.
  unfoldable pub log : Connection → Bytes → Option Connection
  unfolding log_mail
  log c message = if is_end c.state then none else log_mail c message c.mail_ptr

  -- `if (mail_ptr != nullptr) Log(message);`
  unfoldable pub log_if_mail : Connection → Bytes → Option Connection
  unfolding log
  log_if_mail c message = if is_some c.mail_ptr then log c message else some c

  abbrev gone : Connection → Option Connection
  gone c = some (record c { relay_operation = none; timer = false; deleted = true })

  -- `delete this`: the destructor, and those of the members.
  unfoldable pub destroy : Connection → Option Connection
  unfolding log_if_mail
  destroy c = log_if_mail c (codes "canceled") >>= gone

  -- `QmqpRelayConnection::OnError`.
  unfoldable pub on_error : Connection → Option Connection
  unfolding log_if_mail destroy
  on_error c = log_if_mail c (codes "client error") >>= destroy

  -- `QmqpRelayConnection::OnDisconnect`.
  unfoldable pub on_disconnect : Connection → Option Connection
  unfolding destroy
  on_disconnect c = destroy c

  -- `if (SendResponse(response)) delete this;`
  unfoldable pub send_response : Bytes → Send → Connection → Option Connection
  unfolding destroy on_error
  send_response response sends c = destroy (record c { responses = c.responses ++ response ∷ [] })
  send_response response fails c = on_error (record c { responses = c.responses ++ response ∷ [] })
  send_response response waits c = some (record c { responses = c.responses ++ response ∷ [] })

  -- `QmqpRelayConnection::Finish`.
  unfoldable pub finish : Connection → Bytes → Send → Option Connection
  unfolding log_if_mail send_response
  finish c response answer =
      if is_init c.state || is_end c.state || is_empty response
      then none
      else log_if_mail c (drop 1 response) >>= send_response response answer

  -- `OnRelayResponse` and `OnRelayError`, which also logs the error.
  unfoldable pub on_relay_call : Connection → HandlerCall → Send → Option Connection
  unfolding finish
  on_relay_call c (on_relay_response response) answer = finish c response answer
  on_relay_call c (on_relay_error response cause) answer = finish c response answer

  -- `QmqpRelayConnection::OnRelayTimeout`.
  unfoldable pub on_relay_timeout : Connection → Send → Option Connection
  unfolding finish
  on_relay_timeout c answer = finish (record c { timer = false }) (codes "Ztimeout") answer

  -- `QmqpRelayConnection::OnLuaError`.
  unfoldable pub on_lua_error : Connection → Send → Option Connection
  unfolding finish
  on_lua_error c answer =
      if not (is_lua c.state) || not (is_some c.mail_ptr)
      then none
      else finish c (codes "Zscript failed") answer
