-- ===== src/Connection/Session.antt =====
-- A connection together with its relay: what the handlers of src/Connection.cxx, src/RemoteRelay.cxx,
-- src/ExecRelay.cxx and src/RawExecRelay.cxx do to both. `none` is a fault of either, or a call of the
-- handler behind its deletion.
pub mod Relays
pub mod Ends
pub mod Invariant
pub mod Steps
pub mod Progress
pub mod Nearer
pub mod Paths
mod Tests
use qrelay.Common.{
  ℕ, ℕ, Bool, true, false, List, [], ◌∷◌, Option, none, some, Bytes, if◌then◌else◌, ◌>>=◌,
}
use qrelay.Libcommon.{Text, Address, Strip, Generator, Arrays}
use qrelay.Qmqp.{QmqpMail}
use qrelay.MutableMail.{MutableMail}
use qrelay.Action.{Action, ActionType, undefined, discard, reject, connect, exec, exec_raw}
use qrelay.Relay.Basic.{HandlerCall, on_netstring_response, on_netstring_error}
use qrelay.Relay.Spawn.{System}
use qrelay.Relay.Remote
use qrelay.Relay.Remote.{
  RemoteRelay, make_remote_relay, on_socket_connect_success, on_socket_connect_error,
}
use qrelay.Relay.Exec
use qrelay.Relay.Exec.{ExecRelay, make_exec_relay, ExecEvent}
use qrelay.Relay.RawExec
use qrelay.Relay.RawExec.{RawExecRelay, new_raw_exec_relay, Write}
use qrelay.Relay.RawExec.Steps.{RawEvent, raw_step}
use qrelay.Connection.{Connection, Cred, make_connection, Send, sends, fails, waits, on_relay_call}
use qrelay.Connection.Handler
use qrelay.Connection.Handler.{Event, lua_finishes, assemble_headers}

-- What `relay_operation` refers to.
pub data RelayOperation : Type 0 where
  no_relay : RelayOperation
  remote_relay : RemoteRelay → RelayOperation
  exec_relay : ExecRelay → RelayOperation
  raw_exec_relay : RawExecRelay → RelayOperation

-- A connection that is deleted keeps the relay as its destructor left it.
pub record Session : Type 0 where
  pub connection : Connection
  pub relay : RelayOperation

abbrev pub new_session : Option Cred → Bool → Session
new_session cred logging = record { connection = make_connection cred logging; relay = no_relay }

pub data RemoteEvent : Type 0 where
  connects connect_fails breaks : RemoteEvent
  answers : Bytes → RemoteEvent

pub data RelayEvent : Type 0 where
  remote_event : RemoteEvent → RelayEvent
  exec_event : ExecEvent → RelayEvent
  raw_exec_event : RawEvent → RelayEvent

-- The system calls of a start, the first write of a raw relay, what is in its buffer, and how many
-- parts its MultiWriteBuffer has room for.
pub record Start : Type 0 where
  pub system : System
  pub write : Write
  pub junk : Bytes
  pub capacity : ℕ

pub data SessionEvent : Type 0 where
  happens : Event → SessionEvent
  handler_finishes : Option Action → Start → SessionEvent
  relay_happens : RelayEvent → SessionEvent

-- The destructor that `DisposablePointer` calls.
unfoldable pub destroy_relay : RelayOperation → RelayOperation
unfolding Exec.destroy RawExec.destroy
destroy_relay no_relay = no_relay
destroy_relay (remote_relay r) = no_relay
destroy_relay (exec_relay r) = exec_relay (Exec.destroy r)
destroy_relay (raw_exec_relay r) = raw_exec_relay (RawExec.destroy r)

-- Whether `Finish` deletes the connection, and the relay with it.
abbrev pub destroys : Send → Bool
destroys sends = true
destroys fails = true
destroys waits = false

-- libcommon's ConnectSocket and NetstringClient report one result each, and have nothing to do then.
abbrev pub reported : RemoteRelay → RemoteEvent → RemoteRelay
reported r connects = record r { connecting = none }
reported r connect_fails = record r { connecting = none }
reported r breaks = record r { requested = none }
reported r (answers payload) = record r { requested = none }

-- What a remote relay does with a result, with its calls of the handler.
unfoldable pub remote_step : RemoteRelay → RemoteEvent → RemoteRelay × List HandlerCall
unfolding on_socket_connect_success on_socket_connect_error on_netstring_response on_netstring_error
remote_step r connects = (on_socket_connect_success r, [])
remote_step r connect_fails = (r, on_socket_connect_error ∷ [])
remote_step r breaks = (r, on_netstring_error ∷ [])
remote_step r (answers payload) = (r, on_netstring_response payload ∷ [])

abbrev pub Told : Type 0
Told = Option (RelayOperation × List HandlerCall)

abbrev pub told_remote : RemoteRelay × List HandlerCall → Told
told_remote (r, calls) = some (remote_relay r, calls)

abbrev pub told_exec : ExecRelay → Told
told_exec r = some (exec_relay r, r.calls)

abbrev pub told_raw_exec : RawExecRelay → Told
told_raw_exec r = some (raw_exec_relay r, r.calls)

module _ (arrays : Arrays) where
  -- An event of a relay that has not called its handler, with the calls that it makes. An event of
  -- another class of relay has no target.
  unfoldable pub relay_step : Send → RelayOperation → RelayEvent → Told
  unfolding remote_step Exec.step
  relay_step answer (remote_relay r) (remote_event e) = told_remote (remote_step (reported r e) e)
  relay_step answer (exec_relay r) (exec_event e) = told_exec (Exec.step arrays r e)
  relay_step answer (raw_exec_relay r) (raw_exec_event e) =
      raw_step (destroys answer) r e >>= told_raw_exec
  relay_step answer no_relay e = none
  relay_step answer (remote_relay r) (exec_event e) = none
  relay_step answer (remote_relay r) (raw_exec_event e) = none
  relay_step answer (exec_relay r) (remote_event e) = none
  relay_step answer (exec_relay r) (raw_exec_event e) = none
  relay_step answer (raw_exec_relay r) (remote_event e) = none
  relay_step answer (raw_exec_relay r) (exec_event e) = none

module _ (generator : Generator) where
  pub make_relay : Send → ActionType → Action → Start → QmqpMail → List Bytes → Told
  unfolding make_remote_relay make_exec_relay new_raw_exec_relay Remote.start Exec.start
      RawExec.start
  make_relay answer undefined action start mail headers = some (no_relay, [])
  make_relay answer discard action start mail headers = some (no_relay, [])
  make_relay answer reject action start mail headers = some (no_relay, [])
  make_relay answer connect action start mail headers =
      some
        (remote_relay (Remote.start (make_remote_relay generator mail headers) action.address), [])
  make_relay answer exec action start mail headers =
      Exec.start start.system action (make_exec_relay generator mail headers) >>= λ r. told_exec r.0
  make_relay answer exec_raw action start mail headers =
      new_raw_exec_relay start.capacity start.junk mail headers >>= λ new.
      RawExec.start (destroys answer) start.system action start.write new >>= λ r. told_raw_exec r.0

-- A start makes one call at most.
abbrev pub first_call : List HandlerCall → Option HandlerCall
first_call [] = none
first_call (call ∷ calls) = some call

-- The connection's destructor deletes the relay.
unfoldable pub settle : RelayOperation → Connection → Option Session
unfolding destroy_relay
settle relay c =
    some (record { connection = c; relay = if c.deleted then destroy_relay relay else relay })

module _ (truncate : Bytes → ℕ → Bytes) where
  -- The calls of the handler, one after the other.
  unfoldable pub deliver_calls : List HandlerCall → Send → Connection → Option Connection
  unfolding on_relay_call
  deliver_calls [] answer c = some c
  deliver_calls (call ∷ calls) answer c =
      let delivered = on_relay_call truncate c call answer >>= deliver_calls calls answer in
      if c.deleted then none else delivered

  module _ (text : Text) (address : Address) (strip : Strip) (generator : Generator)
      (arrays : Arrays) where
    finish_with :
        RelayOperation
        → Connection
        → Option MutableMail
        → Option Action
        → Start
        → Send
        → Option Session
    unfolding make_relay Handler.step settle assemble_headers
    finish_with relay c none action start answer =
        Handler.step truncate text address strip c (lua_finishes action none) answer
        >>= settle relay
    finish_with relay c (some mail) none start answer =
        Handler.step truncate text address strip c (lua_finishes none none) answer >>= settle relay
    finish_with relay c (some mail) (some action) start answer =
        make_relay generator answer action.type action start mail.mail (assemble_headers c mail)
        >>= λ made.
            Handler.step truncate text address strip c
              (lua_finishes (some action) (first_call made.1)) answer
            >>= settle made.0

    -- One event of the connection or of its relay.
    unfoldable pub session_step : Session → SessionEvent → Send → Option Session
    unfolding finish_with relay_step deliver_calls Handler.step settle
    session_step s (happens e) answer =
        Handler.step truncate text address strip s.connection e answer >>= settle s.relay
    session_step s (handler_finishes action start) answer =
        finish_with s.relay s.connection s.connection.mail_ptr action start answer
    session_step s (relay_happens e) answer = relay_step arrays answer s.relay e >>= λ told.
        deliver_calls told.1 answer s.connection >>= settle told.0
