-- ===== src/Relay/RawExec.antt =====
-- src/RawExecRelay.hxx and src/RawExecRelay.cxx: the relay that runs a program which reads the bare
-- message and may print an error message. The calls of the handler are kept in the state, oldest
-- first. `none` is a fault: an access to the deleted object, to `status` before it is written, or
-- behind an array, or a failed assertion.
pub mod Buffer
pub mod Safety
pub mod Order
pub mod Outcome
pub mod Steps
pub mod Response
pub mod Valid
pub mod Told
mod Tests
use qrelay.Common.{
  leb, ℕ, suc, ◌+◌, ◌-◌, ℤ, Bool, true, false, ◌||◌, ◌&&◌, not, List, [], ◌∷◌, ◌++◌, Option, none,
  some, Bytes, codes, ltb, ◌==◌, if◌then◌else◌, ◌>>=◌, take, drop, length, concat,
}
use qrelay.Action.{Action, is_exec_raw, names_program}
use qrelay.Qmqp.{QmqpMail}
use qrelay.Relay.Basic.{
  HandlerCall, on_relay_response, on_relay_error, start_error, read_error, write_error,
  waitid_failed, died_from_signal, exited,
}
use qrelay.Relay.ExitStatus.{
  is_negative, negated, w_if_signaled, w_term_sig, w_core_dump, w_exit_status,
  exit_status_to_qmqp_response,
}
use qrelay.Relay.Spawn.{System, Spawned, threw, running, spawn}

-- A pipe is open or not. `pending` is what `request_buffer` still holds and `written` what the pipe
-- took of it; `response_buffer` has 256 bytes; `status` is `none` until it is written; `deleted`
-- says that the handler has destroyed the relay.
pub record RawExecRelay : Type 0 where
  pub pidfd : Bool
  pub pending : Bytes
  pub written : Bytes
  pub request_pipe : Bool
  pub response_pipe : Bool
  pub response_buffer : Bytes
  pub response_fill : ℕ
  pub status : Option ℤ
  pub killed : Bool
  pub deleted : Bool
  pub calls : List HandlerCall

-- `sizeof(response_buffer)`.
abbrev pub buffer_size : ℕ
buffer_size = 256

-- What the constructor leaves where `request_buffer` has room for all parts. The array is not
-- initialised, and what is in it does not matter.
unfoldable pub make_raw_exec_relay : Bytes → QmqpMail → List Bytes → RawExecRelay
make_raw_exec_relay junk mail additional_headers = record {
  pidfd = false;
  pending = concat (additional_headers ++ mail.message ∷ []);
  written = [];
  request_pipe = false;
  response_pipe = false;
  response_buffer = junk;
  response_fill = 1;
  status = none;
  killed = false;
  deleted = false;
  calls = [];
}

-- The parts that the constructor pushes to `request_buffer`.
abbrev pub request_parts : QmqpMail → List Bytes → List Bytes
request_parts mail additional_headers = additional_headers ++ mail.message ∷ []

-- The constructor with a MultiWriteBuffer that has room for `capacity` parts; `none` is a push to a
-- full one.
unfoldable pub new_raw_exec_relay : ℕ → Bytes → QmqpMail → List Bytes → Option RawExecRelay
unfolding make_raw_exec_relay
new_raw_exec_relay capacity junk mail additional_headers =
    if leb (length (request_parts mail additional_headers)) capacity
    then some (make_raw_exec_relay junk mail additional_headers)
    else none

-- The destructor.
unfoldable pub destroy : RawExecRelay → RawExecRelay
destroy relay =
    let r = record relay { request_pipe = false; response_pipe = false; deleted = true } in
    if r.pidfd then record r { pidfd = false; killed = true } else r

-- What a write to the request pipe does: it takes some of the bytes, or all, or it throws.
pub data Write : Type 0 where
  takes : ℕ → Write
  finishes write_fails : Write

-- What a read from the response pipe finds: an error, or bytes, of which it returns as many as fit;
-- no bytes are the end of the pipe.
pub data Read : Type 0 where
  read_fails : Read
  finds : Bytes → Read

-- The flags of an event: `PipeEvent::HANGUP`, and whether there are others.
pub record Events : Type 0 where
  pub hangup : Bool
  pub others : Bool

-- `ReadPipeOrThrow`, into so many bytes; `none` is the exception.
abbrev read_pipe_or_throw : Read → ℕ → Option Bytes
read_pipe_or_throw read_fails size = none
read_pipe_or_throw (finds bytes) size = some (take size bytes)

-- A read into an array, from an offset.
abbrev blit : Bytes → ℕ → Bytes → Bytes
blit buffer offset bytes = take offset buffer ++ (bytes ++ drop (offset + length bytes) buffer)

abbrev is_some_bytes : Bytes → Bool
is_some_bytes [] = false
is_some_bytes (c ∷ s) = true

-- `destroys` says whether the handler deletes the relay before it returns.
module _ (destroys : Bool) where
  unfoldable pub report : RawExecRelay → HandlerCall → RawExecRelay
  unfolding destroy
  report r call =
      let called = record r { calls = r.calls ++ call ∷ [] } in
      if destroys then destroy called else called

  -- `RawExecRelay::TryWrite`, which returns true in every case.
  unfoldable pub try_write : RawExecRelay → Write → RawExecRelay
  unfolding report
  try_write r (takes n) = record r {
    written = r.written ++ take n r.pending;
    pending = drop n r.pending;
  }
  try_write r finishes = record r {
    written = r.written ++ r.pending;
    pending = [];
    request_pipe = false;
  }
  try_write r write_fails = report r (on_relay_error (codes "Zwrite error") write_error)

  pub started : RawExecRelay → Write → Spawned → RawExecRelay × Bool
  unfolding try_write
  started r write threw =
      (report r (on_relay_error (codes "Zinternal server error") start_error), false)
  started r write (running argv env) =
      (try_write (record r { pidfd = true; response_pipe = true; request_pipe = true }) write, true)

  abbrev pub some_started : RawExecRelay → Write → Spawned → Option (RawExecRelay × Bool)
  some_started r write s = some (started r write s)

  -- `RawExecRelay::Start`; `none` is a failed assertion or a write out of bounds.
  unfoldable pub start : System → Action → Write → RawExecRelay → Option (RawExecRelay × Bool)
  unfolding spawn started
  start sys action write r =
      if is_exec_raw action.type && names_program action.exec
      then spawn sys action >>= some_started r write
      else none

  -- `RawExecRelay::OnRequestPipeReady`.
  unfoldable pub on_request_pipe_ready : RawExecRelay → Write → RawExecRelay
  unfolding try_write
  on_request_pipe_ready r write = try_write r write

  failed_read : RawExecRelay → RawExecRelay × Bool
  unfolding report
  failed_read r = (report r (on_relay_error (codes "Zread error") read_error), true)

  -- With a full buffer: the bytes are discarded.
  discard : RawExecRelay → Option Bytes → RawExecRelay × Bool
  unfolding failed_read
  discard r none = failed_read r
  discard r (some bytes) = (r, is_some_bytes bytes)

  append : RawExecRelay → Option Bytes → RawExecRelay × Bool
  unfolding failed_read
  append r none = failed_read r
  append r (some bytes) = (
    record r {
      response_buffer = blit r.response_buffer r.response_fill bytes;
      response_fill = r.response_fill + length bytes;
    },
    is_some_bytes bytes,
  )

  -- `RawExecRelay::TryRead`.
  unfoldable pub try_read : RawExecRelay → Read → RawExecRelay × Bool
  unfolding discard append
  try_read r read =
      let room = buffer_size - r.response_fill in
      if room == 0
      then discard r (read_pipe_or_throw read 1024)
      else append r (read_pipe_or_throw read room)

-- `response_buffer[0] = c`.
abbrev pub set_front : Bytes → ℕ → Bytes
set_front [] c = []
set_front (x ∷ s) c = c ∷ s

abbrev pub first_byte : Bytes → ℕ
first_byte [] = 0
first_byte (c ∷ s) = c

-- The response that the status alone calls for.
unfoldable pub status_response : ℤ → Bytes
unfolding exit_status_to_qmqp_response
status_response status =
    if is_negative status || w_if_signaled status
    then codes "Zinternal server error"
    else if not (w_exit_status status == 0)
    then exit_status_to_qmqp_response (w_exit_status status)
    else codes "K"

-- The call that the status calls for, with the response that was put together.
unfoldable pub status_call : ℤ → Bytes → HandlerCall
status_call status response =
    if is_negative status
    then on_relay_error response (waitid_failed (negated status))
    else if w_if_signaled status
    then on_relay_error response (died_from_signal (w_term_sig status) (w_core_dump status))
    else if not (w_exit_status status == 0)
    then on_relay_error response (exited (w_exit_status status))
    else on_relay_response response

module _ (destroys : Bool) where
  -- `Finish` behind its assertions.
  unfoldable pub finish_with : RawExecRelay → Option ℤ → Option RawExecRelay
  unfolding status_response status_call report
  finish_with r none = none
  finish_with r (some status) =
      let buffer = set_front r.response_buffer (first_byte (status_response status)) in
      if ltb 1 r.response_fill
      then some (
          report destroys (record r { response_buffer = buffer })
            (status_call status (take r.response_fill buffer)))
      else some (report destroys r (status_call status (status_response status)))

  -- `RawExecRelay::Finish`.
  unfoldable pub finish : RawExecRelay → Option RawExecRelay
  unfolding finish_with
  finish r = if r.response_pipe || r.pidfd then none else finish_with r r.status

  -- The body of the `if` of `OnResponsePipeReady`.
  pub close_response_pipe : RawExecRelay → Option RawExecRelay
  unfolding finish
  close_response_pipe relay =
      let r = record relay { response_pipe = false } in
      if relay.deleted then none else if not r.pidfd then finish r else some r

  pub after_read : Bool → RawExecRelay × Bool → Option RawExecRelay
  unfolding close_response_pipe
  after_read hangup (r, more) = if not more || hangup then close_response_pipe r else some r

  -- `RawExecRelay::OnResponsePipeReady`.
  unfoldable pub on_response_pipe_ready : RawExecRelay → Events → Read → Option RawExecRelay
  unfolding after_read try_read
  on_response_pipe_ready r events read =
      if events.hangup && not events.others
      then close_response_pipe r
      else after_read events.hangup (try_read destroys r read)

  -- `RawExecRelay::OnChildProcessExit`.
  unfoldable pub on_child_process_exit : RawExecRelay → ℤ → Option RawExecRelay
  unfolding finish
  on_child_process_exit relay status =
      let r = record relay { pidfd = false; status = some status } in
      if not r.response_pipe then finish r else some r
