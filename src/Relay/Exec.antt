-- ===== src/Relay/Exec.antt =====
-- src/ExecRelay.hxx and src/ExecRelay.cxx: the relay that runs a program which talks QMQP. The calls
-- of the handler are kept in the state, oldest first.
pub mod Order
pub mod Valid
pub mod Told
mod Tests
use qrelay.Common.{
  ◌&&◌, ℕ, suc, ◌+◌, ℤ, pos, negsuc, Bool, true, false, not, List, [], ◌∷◌, ◌++◌, Option, none,
  some, Bytes, codes, ◌==◌, if◌then◌else◌, ◌>>=◌,
}
use qrelay.Libcommon.{Generator, Arrays}
use qrelay.Action.{Action, is_exec, names_program}
use qrelay.Qmqp.{QmqpMail}
use qrelay.Relay.Basic.{
  HandlerCall, on_relay_error, Cause, start_error, waitid_failed, died_from_signal, exited,
  make_request, on_netstring_response, on_netstring_error,
}
use qrelay.Relay.ExitStatus.{
  is_negative, negated, w_if_signaled, w_term_sig, w_core_dump, w_exit_status,
  exit_status_to_qmqp_response,
}
use qrelay.Relay.Spawn.{System, Spawned, threw, running, spawn}

-- `pidfd` says whether the pointer is set; `requested` is what the NetstringClient was asked to
-- send, and `killed` whether the child was handed to the ChildProcessTerminator.
pub record ExecRelay : Type 0 where
  pub request : List Bytes
  pub pidfd : Bool
  pub deferred_response : Option Bytes
  pub requested : Option (List Bytes)
  pub killed : Bool
  pub calls : List HandlerCall

-- The constructor.
unfoldable pub make_exec_relay : Generator → QmqpMail → List Bytes → ExecRelay
unfolding make_request
make_exec_relay generator mail additional_headers = record {
  request = make_request generator mail additional_headers;
  pidfd = false;
  deferred_response = none;
  requested = none;
  killed = false;
  calls = [];
}

-- The destructor.
unfoldable pub destroy : ExecRelay → ExecRelay
destroy r = if r.pidfd then record r { pidfd = false; killed = true } else r

abbrev pub report : ExecRelay → HandlerCall → ExecRelay
report r call = record r { calls = r.calls ++ call ∷ [] }

-- Behind pidfd_spawn(), and the catch block.
pub started : ExecRelay → Spawned → ExecRelay × Bool
started r threw = (report r (on_relay_error (codes "Zinternal server error") start_error), false)
started r (running argv env) =
    (record r { pidfd = true; requested = some r.request; request = [] }, true)

abbrev pub some_started : ExecRelay → Spawned → Option (ExecRelay × Bool)
some_started r s = some (started r s)

-- `ExecRelay::Start`; `none` is a failed assertion or a write out of bounds.
unfoldable pub start : System → Action → ExecRelay → Option (ExecRelay × Bool)
unfolding spawn started
start sys action r =
    if is_exec action.type && names_program action.exec
    then spawn sys action >>= some_started r
    else none

-- `deferred_response` as an argument.
abbrev deferred_bytes : Option Bytes → Bytes
deferred_bytes none = []
deferred_bytes (some payload) = payload

module _ (arrays : Arrays) where
  -- `deferred_response != nullptr`.
  abbrev pub is_deferred : Option Bytes → Bool
  is_deferred none = false
  is_deferred (some payload) = not (arrays.is_null payload)

  -- `ExecRelay::OnChildProcessExit`. `OnNetstringResponse` reads `deferred_response` through the
  -- reference that it is given, and does not move it.
  unfoldable pub on_child_process_exit : ExecRelay → ℤ → ExecRelay
  unfolding on_netstring_response exit_status_to_qmqp_response
  on_child_process_exit relay status =
      let r = record relay { pidfd = false } in
      if is_negative status
      then report r
          (on_relay_error (codes "Zinternal server error") (waitid_failed (negated status)))
      else if w_if_signaled status
      then report r (
          on_relay_error (codes "Zinternal server error")
            (died_from_signal (w_term_sig status) (w_core_dump status)))
      else if not (w_exit_status status == 0)
      then report r (
          on_relay_error (exit_status_to_qmqp_response (w_exit_status status))
            (exited (w_exit_status status)))
      else if is_deferred r.deferred_response
      then report r (on_netstring_response (deferred_bytes r.deferred_response))
      else r

-- `ExecRelay::OnNetstringResponse`.
unfoldable pub on_response : ExecRelay → Bytes → ExecRelay
unfolding on_netstring_response
on_response r payload =
    if r.pidfd
    then record r { deferred_response = some payload }
    else report r (on_netstring_response payload)

-- `BasicRelay::OnNetstringError`, which the class does not override.
unfoldable pub on_error : ExecRelay → ExecRelay
unfolding on_netstring_error
on_error r = report r on_netstring_error

-- What a started relay can be told.
pub data ExecEvent : Type 0 where
  answers : Bytes → ExecEvent
  ends : ℤ → ExecEvent
  breaks : ExecEvent

-- libcommon's NetstringClient answers or fails once, and has nothing to do then.
abbrev pub reported : ExecRelay → ExecEvent → ExecRelay
reported r (answers payload) = record r { requested = none }
reported r (ends status) = r
reported r breaks = record r { requested = none }

module _ (arrays : Arrays) where
  unfoldable pub handle : ExecRelay → ExecEvent → ExecRelay
  unfolding on_response on_child_process_exit on_error
  handle r (answers payload) = on_response r payload
  handle r (ends status) = on_child_process_exit arrays r status
  handle r breaks = on_error r

  unfoldable pub step : ExecRelay → ExecEvent → ExecRelay
  unfolding handle
  step r e = handle (reported r e) e

  unfoldable pub run : ExecRelay → List ExecEvent → ExecRelay
  run r [] = r
  run r (e ∷ es) = run (step r e) es
