-- ===== src/Connection/Handler/Invariant.antt =====
-- The invariant of `QmqpRelayConnection` (src/Connection.cxx) between two events, and what its
-- environment keeps to.
use qrelay.Common.{
  ℕ, ◌≤◌, ◌≡◌, ◌≢◌, ◌⊎◌, refl, sym, Bool, true, false, [], ◌∷◌, Option, none, some, arith, Bytes,
  All, length, is_some, subst,
}
use qrelay.MutableMail.{MutableMail}
use qrelay.Action.{Action, undefined}
use qrelay.Relay.Basic.{
  HandlerCall, Cause, on_relay_response, on_relay_error, is_status, is_valid_qmqp_response,
  IsValidCall,
}
use qrelay.Connection.{
  Connection, Cred, init, lua, relaying, Send, waits, make_connection, is_init, is_end, finish,
  on_relay_call,
}
use qrelay.Connection.Finish.{logged, closed, answered, finish_lem}
use qrelay.Connection.Handler.{
  Event, requests, edits, lua_finishes, lua_fails, relay_times_out, client_fails,
  client_disconnects, relay_calls,
}

abbrev pub IsValidResponse : Bytes → Type 0
IsValidResponse response = is_valid_qmqp_response response ≡ true

-- What holds between two events. While the connection exists it waits for the request, for the Lua
-- handler, or for a relay, and nothing was answered or logged.
pub record Inv (c : Connection) : Type 0 where
  pub phase : c.deleted ≡ false → (c.state ≡ init) ⊎ ((c.state ≡ lua) ⊎ (c.state ≡ relaying))
  pub no_mail_yet : c.deleted ≡ false → c.state ≡ init → c.mail_ptr ≡ none
  pub has_mail : c.deleted ≡ false → c.state ≢ init → is_some c.mail_ptr ≡ true
  pub relay_relays : c.deleted ≡ false → is_some c.relay_operation ≡ true → c.state ≡ relaying
  pub timer_relays : c.deleted ≡ false → c.timer ≡ true → c.state ≡ relaying
  pub unanswered : c.deleted ≡ false → c.responses ≡ []
  pub unlogged : c.deleted ≡ false → c.logs ≡ []
  pub one_response : length c.responses ≤ 1
  pub one_log : length c.logs ≤ 1
  pub valid : All IsValidResponse c.responses

-- Without a failed assertion, and into a state with the invariant.
abbrev pub Safe : Option Connection → Type 0
Safe none = ⊥
Safe (some c) = Inv c

pub make_connection-Inv : (cred : Option Cred) (logging : Bool) → Inv (make_connection cred logging)
make_connection-Inv cred logging = ground arith

-- What the environment keeps to: a request for a new connection, the Lua handler's end while it
-- runs, with a defined action, and a timer or a relay only where there is one. A relay's response
-- is valid.
abbrev pub ValidCall : Option HandlerCall → Type 0
ValidCall none = Unit {0}
ValidCall (some call) = IsValidCall call

abbrev pub DefinedAction : Option Action → Type 0
DefinedAction none = Unit {0}
DefinedAction (some action) = action.type ≢ undefined

abbrev pub Allowed : Connection → Event → Type 0
Allowed c (requests payload) = c.state ≡ init
Allowed c (edits edit) = c.state ≡ lua
Allowed c (lua_finishes action call) = (c.state ≡ lua) × DefinedAction action × ValidCall call
Allowed c lua_fails = c.state ≡ lua
Allowed c relay_times_out = c.timer ≡ true
Allowed c client_fails = Unit {0}
Allowed c client_disconnects = Unit {0}
Allowed c (relay_calls call) = (is_some c.relay_operation ≡ true) × IsValidCall call

module _ (truncate : Bytes → ℕ → Bytes) where
  ended-Inv :
      (c : Connection) (mail : Option MutableMail) (d : ℕ) (response : Bytes)
      → c.responses ≡ []
      → c.logs ≡ []
      → is_status d ≡ true
      → Inv (closed truncate (answered truncate (logged truncate c response mail) (d ∷ response)))
  ended-Inv c none d response quiet unlogged v = ground arith
  ended-Inv c (some mail) d response quiet unlogged v = ground arith

  -- `Finish` is safe in every state but the first and the last.
  pub finish-Safe :
      (c : Connection) (d : ℕ) (response : Bytes) (answer : Send)
      → is_init c.state ≡ false
      → is_end c.state ≡ false
      → c.responses ≡ []
      → c.logs ≡ []
      → is_status d ≡ true
      → answer ≢ waits
      → Safe (finish truncate c (d ∷ response) answer)
  finish-Safe c d response answer i e quiet unlogged v w =
      subst Safe (sym (finish_lem truncate c c.mail_ptr d response answer refl i e w))
        (ended-Inv c c.mail_ptr d response quiet unlogged v)

  pub response_lem :
      (c : Connection) (response : Bytes) (answer : Send)
      → finish truncate c response answer
        ≡ on_relay_call truncate c (on_relay_response response) answer
  unfolding on_relay_call
  response_lem c response answer = refl

  pub error_lem :
      (c : Connection) (response : Bytes) (cause : Cause) (answer : Send)
      → finish truncate c response answer
        ≡ on_relay_call truncate c (on_relay_error response cause) answer
  unfolding on_relay_call
  error_lem c response cause answer = refl

  pub call-Safe :
      (c : Connection) (call : HandlerCall) (answer : Send)
      → is_init c.state ≡ false
      → is_end c.state ≡ false
      → c.responses ≡ []
      → c.logs ≡ []
      → IsValidCall call
      → answer ≢ waits
      → Safe (on_relay_call truncate c call answer)
  call-Safe c (on_relay_response []) answer i e quiet unlogged v w = cc
  call-Safe c (on_relay_response (d ∷ r)) answer i e quiet unlogged v w =
      subst Safe (response_lem c (d ∷ r) answer) (finish-Safe c d r answer i e quiet unlogged v w)
  call-Safe c (on_relay_error [] cause) answer i e quiet unlogged v w = cc
  call-Safe c (on_relay_error (d ∷ r) cause) answer i e quiet unlogged v w =
      subst Safe (error_lem c (d ∷ r) cause answer)
        (finish-Safe c d r answer i e quiet unlogged v w)
