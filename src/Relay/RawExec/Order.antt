-- ===== src/Relay/RawExec/Order.antt =====
-- The program's output and its exit, in either order (src/RawExecRelay.cxx).
use qrelay.Common.{ℤ, ◌≡◌, Bool, true, false, some, arith, Bytes, ◌>>=◌}
use qrelay.Relay.RawExec.{
  RawExecRelay, Events, finds, try_read, on_response_pipe_ready, on_child_process_exit, after_read,
  close_response_pipe, discard, append,
}

-- The object as the child's end leaves it, before any report.
abbrev ended : RawExecRelay → ℤ → RawExecRelay
ended r status = record r { pidfd = false; status = some status }

try_read-ended :
    (destroys : Bool) (r : RawExecRelay) (status : ℤ) (bytes : Bytes)
    → try_read destroys (ended r status) (finds bytes)
      ≡ (ended (try_read destroys r (finds bytes)).0 status, (try_read destroys r (finds bytes)).1)
unfolding try_read discard append
try_read-ended destroys r status bytes = ground arith

-- While the child runs and its output is open, an event of the pipe that reads without an error and
-- the exit can be swapped: the object is the same afterwards, the calls of the handler included.
pub pipe_exit_order :
    (destroys : Bool) (r : RawExecRelay) (events : Events) (bytes : Bytes) (status : ℤ)
    → r.pidfd ≡ true
    → r.response_pipe ≡ true
    → r.deleted ≡ false
    → (on_response_pipe_ready destroys r events (finds bytes) >>= λ q.
        on_child_process_exit destroys q status)
      ≡ (on_child_process_exit destroys r status >>= λ q.
          on_response_pipe_ready destroys q events (finds bytes))
unfolding on_response_pipe_ready after_read close_response_pipe on_child_process_exit try_read
    discard append
pipe_exit_order destroys r events bytes status child pipe alive = ground arith
