-- ===== src/Connection/Handler/Delivered.antt =====
-- A relay's call and the client: `RelayHandler` as `QmqpRelayConnection` has it (src/Connection.cxx),
-- with what src/ExecRelay.cxx and src/RawExecRelay.cxx call.
mod Tests
use qrelay.Common.{
  ℕ, ◌≡◌, ◌≢◌, refl, sym, ap, ◌∙◌, Bool, true, false, List, [], ◌∷◌, Option, some, arith, Bytes,
  All, drop, concat, ◌>>=◌, ℤ,
}
use qrelay.Libcommon.{Arrays}
use qrelay.MutableMail.{MutableMail}
use qrelay.Relay.Basic.{
  HandlerCall, on_relay_response, on_relay_error, response_of, is_valid_qmqp_response,
}
use qrelay.Relay.ExitStatus.{is_negative, w_if_signaled, w_exit_status}
use qrelay.Relay.Exec
use qrelay.Relay.Exec.{ExecRelay, on_response}
use qrelay.Relay.Exec.Order.{IsWaiting, success_passed_on}
use qrelay.Relay.RawExec.{
  RawExecRelay, finds, first_byte, status_response, status_call, on_response_pipe_ready,
  on_child_process_exit,
}
use qrelay.Relay.RawExec.Buffer.{collected}
use qrelay.Relay.RawExec.Outcome.{IsRunning, readable, read_all, raw_response, raw_exec_outcome}
use qrelay.Relay.RawExec.Response.{status_response_valid, first_byte_status}
use qrelay.Connection.{
  Connection, State, relaying, Send, waits, is_init, is_end, finish, on_relay_call,
}
use qrelay.Connection.Finish.{logged, closed, answered, finish_lem}

raw_response_valid :
    (status : ℤ) (output : Bytes) → is_valid_qmqp_response (raw_response status output) ≡ true
raw_response_valid status [] = status_response_valid status
raw_response_valid status (c ∷ output) =
    first_byte_status (status_response status) (status_response_valid status)

response_of-status_call :
    (status : ℤ) (response : Bytes) → response_of (status_call status response) ≡ response
unfolding status_call
response_of-status_call status response = ground arith

module _ (truncate : Bytes → ℕ → Bytes) where
  -- The connection that has sent the response, and has logged the mail with its text.
  abbrev pub delivered : Connection → MutableMail → Bytes → Connection
  delivered c mail response =
      closed truncate (answered truncate (logged truncate c (drop 1 response) (some mail)) response)

  call_finishes :
      (c : Connection) (call : HandlerCall) (answer : Send)
      → on_relay_call truncate c call answer ≡ finish truncate c (response_of call) answer
  unfolding on_relay_call
  call_finishes c (on_relay_response response) answer = refl
  call_finishes c (on_relay_error response cause) answer = refl

  finish_valid :
      (c : Connection) (mail : MutableMail) (response : Bytes) (answer : Send)
      → c.state ≡ relaying
      → c.mail_ptr ≡ some mail
      → is_valid_qmqp_response response ≡ true
      → answer ≢ waits
      → finish truncate c response answer ≡ some (delivered c mail response)
  finish_valid c mail [] answer s m v w = cc
  finish_valid c mail (d ∷ response) answer s m v w =
      finish_lem truncate c (some mail) d response answer m (ap is_init s) (ap is_end s) w

  -- For a relaying connection with a mail, whose QMQP program (running, without an answer or a call
  -- yet) gives a valid answer and then exits with status 0: the relay makes one call, and with that
  -- call and a send that does not wait the client has got the program's answer, the mail is logged
  -- with its text if there is a log socket, and the connection is gone.
  pub exec_delivered :
      (arrays : Arrays) (r : ExecRelay) (k : ℕ) (payload : Bytes) (status : ℤ)
      → (c : Connection) (mail : MutableMail) (answer : Send) → IsWaiting r
      → is_negative status ≡ false
      → w_if_signaled status ≡ false
      → w_exit_status status ≡ 0
      → is_valid_qmqp_response (k ∷ payload) ≡ true
      → c.state ≡ relaying
      → c.mail_ptr ≡ some mail
      → answer ≢ waits
      → (call : HandlerCall) × ((Exec.on_child_process_exit arrays
            (on_response r (k ∷ payload))
            status).calls
          ≡ call ∷ [])
        × (on_relay_call truncate c call answer ≡ some (delivered c mail (k ∷ payload)))
  exec_delivered arrays r k payload status c mail answer run n g e v s m w = (
    on_relay_response (k ∷ payload),
    success_passed_on arrays r k payload status run n g e v,
    call_finishes c (on_relay_response (k ∷ payload)) answer
        ∙ finish_valid c mail (k ∷ payload) answer s m v w,
  )

  -- For a relaying connection with a mail, whose raw program (running, without output or calls yet)
  -- prints some pieces that are not empty, closes its output, and exits: the relay makes one call,
  -- and with that call and a send that does not wait the client has got the letter of the exit
  -- status with the first 255 bytes of the output, or the response of the status alone; the mail is
  -- logged if there is a log socket, and the connection is gone.
  pub raw_exec_delivered :
      (destroys : Bool) (r : RawExecRelay) (chunks : List Bytes) (status : ℤ)
      → (c : Connection) (mail : MutableMail) (answer : Send) → IsRunning r
      → collected r ≡ []
      → r.calls ≡ []
      → All (λ chunk. chunk ≢ []) chunks
      → c.state ≡ relaying
      → c.mail_ptr ≡ some mail
      → answer ≢ waits
      → (q : RawExecRelay) × (call : HandlerCall) × ((read_all destroys r chunks >>= λ p.
            on_response_pipe_ready destroys p readable (finds []) >>= λ p'.
            on_child_process_exit destroys p' status)
          ≡ some q)
        × (q.calls ≡ call ∷ [])
        × (on_relay_call truncate c call answer
            ≡ some (delivered c mail (raw_response status (concat chunks))))
  raw_exec_delivered destroys r chunks status c mail answer run nothing quiet pieces s m w =
      let response = raw_response status (concat chunks) in
      let (q, ended, calls) = raw_exec_outcome destroys r chunks status run nothing quiet pieces in
      (
        q,
        status_call status response,
        ended,
        calls,
        call_finishes c (status_call status response) answer
            ∙ ap (λ (t : Bytes). finish truncate c t answer)
                (response_of-status_call status response)
            ∙ finish_valid c mail response answer s m (raw_response_valid status (concat chunks)) w,
      )
