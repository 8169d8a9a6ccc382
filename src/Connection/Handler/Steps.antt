-- ===== src/Connection/Handler/Steps.antt =====
-- `QmqpRelayConnection` (src/Connection.cxx) from its first event to its last: the paths of
-- events.
use qrelay.Connection.Handler.Invariant.{Inv, Safe, Allowed, IsValidResponse, make_connection-Inv}
use qrelay.Connection.Handler.LuaResult.{lua-Safe, lua_error-Safe}
use qrelay.Connection.Handler.Request.{
  disconnect-Safe, error-Safe, timeout-Safe, relay-Safe, any_request-Safe,
}
use qrelay.Common.{
  ℕ, ◌≤◌, ◌≡◌, ◌≢◌, refl, sym, Bool, false, Option, none, some, arith, Bytes, All, length, subst,
}
use qrelay.Libcommon.{Text, TextLaws, Address, Strip}
use qrelay.MutableMail.{MutableMail}
use qrelay.Action.{Action}
use qrelay.Relay.Basic.{HandlerCall}
use qrelay.Connection.{
  Connection, Cred, lua, Send, waits, make_connection, on_relay_call, on_relay_timeout,
  on_lua_error, on_error, on_disconnect,
}
use qrelay.Connection.Handler.{
  Event, requests, edits, lua_finishes, lua_fails, relay_times_out, client_fails,
  client_disconnects, relay_calls, step, on_lua_finished, on_request, Edit, edited,
}

module _ (truncate : Bytes → ℕ → Bytes) (text : Text) (address : Address) (strip : Strip) where
  -- `c'` is reached from `c` by events that are allowed where they happen.
  pub data Reaches : Connection → Connection → Type 0 where
    still : {c : Connection} → Reaches c c
    moves :
        {c c' c'' : Connection} (event : Event) (answer : Send)
        → Reaches c c'
        → c'.deleted ≡ false
        → Allowed c' event
        → answer ≢ waits
        → step truncate text address strip c' event answer ≡ some c''
        → Reaches c c''

  module _ (laws : TextLaws text) where
    pub edited_lem :
        (c : Connection) (edit : Edit) (mail : Option MutableMail) (answer : Send)
        → c.mail_ptr ≡ mail
        → step truncate text address strip c (edits edit) answer
          ≡ edited truncate text address strip c edit mail
    unfolding step
    edited_lem c edit mail answer m = rw m

    edited-Safe :
        (c : Connection) (edit : Edit) (mail : Option MutableMail)
        → c.deleted ≡ false
        → Inv c
        → c.state ≡ lua
        → Safe (edited truncate text address strip c edit mail)
    edited-Safe c edit none alive v l = v
    edited-Safe c edit (some mail) alive v l = ground arith

    pub step_request :
        (c : Connection) (payload : Bytes) (answer : Send)
        → on_request truncate text address strip c payload answer
          ≡ step truncate text address strip c (requests payload) answer
    unfolding step
    step_request c payload answer = refl

    pub step_lua :
        (c : Connection) (action : Option Action) (call : Option HandlerCall) (answer : Send)
        → on_lua_finished truncate c action call answer
          ≡ step truncate text address strip c (lua_finishes action call) answer
    unfolding step
    step_lua c action call answer = refl

    pub step_lua_fails :
        (c : Connection) (answer : Send)
        → on_lua_error truncate c answer ≡ step truncate text address strip c lua_fails answer
    unfolding step
    step_lua_fails c answer = refl

    pub step_timeout :
        (c : Connection) (answer : Send)
        → on_relay_timeout truncate c answer
          ≡ step truncate text address strip c relay_times_out answer
    unfolding step
    step_timeout c answer = refl

    pub step_error :
        (c : Connection) (answer : Send)
        → on_error truncate c ≡ step truncate text address strip c client_fails answer
    unfolding step
    step_error c answer = refl

    pub step_disconnect :
        (c : Connection) (answer : Send)
        → on_disconnect truncate c ≡ step truncate text address strip c client_disconnects answer
    unfolding step
    step_disconnect c answer = refl

    step_call :
        (c : Connection) (call : HandlerCall) (answer : Send)
        → on_relay_call truncate c call answer
          ≡ step truncate text address strip c (relay_calls call) answer
    unfolding step
    step_call c call answer = refl

    -- Every allowed event of a connection with the invariant is handled without a failed assertion,
    -- and the invariant holds again.
    pub step-Safe :
        (c : Connection) (event : Event) (answer : Send)
        → c.deleted ≡ false
        → Inv c
        → Allowed c event
        → answer ≢ waits
        → Safe (step truncate text address strip c event answer)
    step-Safe c (requests payload) answer alive v ok w =
        subst Safe (step_request c payload answer)
          (any_request-Safe truncate text address strip laws c payload answer alive v ok w)
    step-Safe c (edits edit) answer alive v ok w =
        subst Safe (sym (edited_lem c edit c.mail_ptr answer refl))
          (edited-Safe c edit c.mail_ptr alive v ok)
    step-Safe c (lua_finishes action call) answer alive v ok w =
        subst Safe (step_lua c action call answer)
          (lua-Safe truncate c action call answer alive v ok.0 ok.1 ok.2 w)
    step-Safe c lua_fails answer alive v ok w =
        subst Safe (step_lua_fails c answer) (lua_error-Safe truncate c answer alive v ok w)
    step-Safe c relay_times_out answer alive v ok w =
        subst Safe (step_timeout c answer) (timeout-Safe truncate c answer alive v ok w)
    step-Safe c client_fails answer alive v ok w =
        subst Safe (step_error c answer) (error-Safe truncate c alive v)
    step-Safe c client_disconnects answer alive v ok w =
        subst Safe (step_disconnect c answer) (disconnect-Safe truncate c alive v)
    step-Safe c (relay_calls call) answer alive v ok w =
        subst Safe (step_call c call answer) (relay-Safe truncate c call answer alive v ok.0 ok.1 w)

    Reaches-Inv : {c c' : Connection} → Reaches c c' → Inv c → Inv c'
    Reaches-Inv still v = v
    Reaches-Inv (moves {c' = c'} event answer r alive ok w e) v =
        subst Safe e (step-Safe c' event answer alive (Reaches-Inv r v) ok w)

    -- A connection that is reached from a new one by events that are allowed where they happen
    -- (the relay's calls have valid responses, the handler's action is defined), with sends that
    -- do not wait, has sent at most one response, each valid, and at most one log datagram.
    pub connection_answers_once :
        (cred : Option Cred) (logging : Bool) (c : Connection)
        → Reaches (make_connection cred logging) c
        → (length c.responses ≤ 1) × All IsValidResponse c.responses × (length c.logs ≤ 1)
    connection_answers_once cred logging c r =
        let v = Reaches-Inv r (make_connection-Inv cred logging) in
        (v.one_response, v.valid, v.one_log)

    -- On every such path from a new connection, if the connection is not deleted then the next
    -- allowed event, with a send that does not wait, is handled without a failed assertion.
    pub connection_step-ne-none :
        (cred : Option Cred) (logging : Bool) (c : Connection) (event : Event) (answer : Send)
        → Reaches (make_connection cred logging) c
        → c.deleted ≡ false
        → Allowed c event
        → answer ≢ waits
        → step truncate text address strip c event answer ≢ none
    connection_step-ne-none cred logging c event answer r alive ok w e =
        subst Safe e
          (step-Safe c event answer alive (Reaches-Inv r (make_connection-Inv cred logging)) ok w)
