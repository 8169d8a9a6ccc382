-- ===== src/Relay/RawExec/Valid.antt =====
-- The responses that `RawExecRelay` (src/RawExecRelay.cxx) gives the handler.
use qrelay.Common.{
  checked_some, ◌&&◌, ◌>>=◌, ◌≡◌, refl, sym, subst, Bool, true, false, not, ◌&&◌, List, [], ◌∷◌,
  ◌++◌, Option, none, some, arith, Bytes, codes, All, All-append, length, take, ltb, Bool-cases,
  Option-cases, inl, inr, ℤ,
}
use qrelay.Qmqp.{QmqpMail}
use qrelay.Action.{Action, is_exec_raw, names_program}
use qrelay.Relay.Basic.{HandlerCall, on_relay_error, read_error, IsValidCall}
use qrelay.Relay.Spawn.{System, threw, running, spawn}
use qrelay.Relay.RawExec.{
  RawExecRelay, buffer_size, Events, Read, read_fails, finds, Write, takes, finishes, write_fails,
  make_raw_exec_relay, start, started, some_started, try_write, try_read, report, destroy,
  set_front, first_byte, status_response, status_call, finish_with, finish, close_response_pipe,
  after_read, on_request_pipe_ready, on_response_pipe_ready, on_child_process_exit,
}
use qrelay.Relay.RawExec.Buffer.{IsSound, try_read-finds, try_read-kept}
use qrelay.Relay.RawExec.Safety.{Inv, failed_read_lem}
use qrelay.Relay.RawExec.Steps.{
  Reaches, still, moves, RawEvent, writable, ready, exits, raw_step, Reaches-Inv, start-Inv,
  new-IsSound, running_relay,
}
use qrelay.Relay.RawExec.Response.{
  status_response_valid, first_byte_status, buffer_valid, status_call_valid,
}

abbrev pub AllValid : RawExecRelay → Type 0
AllValid r = All IsValidCall r.calls

module _ (destroys : Bool) where
  pub report-calls :
      (r : RawExecRelay) (call : HandlerCall)
      → (report destroys r call).calls ≡ r.calls ++ call ∷ []
  unfolding report destroy
  report-calls r call = ground arith

  report-AllValid :
      (r : RawExecRelay) (call : HandlerCall)
      → AllValid r
      → IsValidCall call
      → AllValid (report destroys r call)
  report-AllValid r call v c =
      subst (λ (calls : List HandlerCall). All IsValidCall calls) (sym (report-calls r call))
        (All-append IsValidCall r.calls (call ∷ []) v (c, tt))

  pub write-AllValid :
      (r : RawExecRelay) (write : Write) → AllValid r → AllValid (try_write destroys r write)
  unfolding try_write
  write-AllValid r (takes n) v = v
  write-AllValid r finishes v = v
  write-AllValid r write_fails v = report-AllValid r _ v refl

  finish_with-AllValid :
      (r q : RawExecRelay) (status : Option ℤ)
      → IsSound r
      → AllValid r
      → finish_with destroys r status ≡ some q
      → AllValid q
  unfolding finish_with
  finish_with-AllValid r q none s v h = cc
  finish_with-AllValid r q (some status) s v h =
      let c = first_byte (status_response status) in
      let buffer = set_front r.response_buffer c in
      let good = status_response_valid status in
      elim (Bool-cases (ltb 1 r.response_fill)) [
        | inl more ↦
            let made : report destroys (record r { response_buffer = buffer })
                  (status_call status (take r.response_fill buffer))
                ≡ q =
              ground arith in
            let valid =
              buffer_valid r.response_fill r.response_buffer c s.first (omega (arith, s.size))
                (first_byte_status (status_response status) good) in
            subst AllValid made (
              report-AllValid (record r { response_buffer = buffer })
                (status_call status (take r.response_fill buffer)) v
                (status_call_valid status (take r.response_fill buffer) valid))
        | inr bare ↦
            let made : report destroys r (status_call status (status_response status)) ≡ q =
              ground arith in
            subst AllValid made (
              report-AllValid r (status_call status (status_response status)) v
                (status_call_valid status (status_response status) good))
      ]

  finish-AllValid :
      (r q : RawExecRelay) → IsSound r → AllValid r → finish destroys r ≡ some q → AllValid q
  unfolding finish
  finish-AllValid r q s v h =
      let finished : finish_with destroys r r.status ≡ some q = ground arith in
      finish_with-AllValid r q r.status s v finished

  abbrev closed : RawExecRelay → RawExecRelay
  closed r = record r { response_pipe = false }

  close-AllValid :
      (r q : RawExecRelay)
      → IsSound r
      → AllValid r
      → close_response_pipe destroys r ≡ some q
      → AllValid q
  unfolding close_response_pipe
  close-AllValid r q s v h = elim (Bool-cases r.pidfd) [
    | inl child ↦ let made : closed r ≡ q = ground arith in subst AllValid made v
    | inr gone ↦
        let finished : finish destroys (closed r) ≡ some q = ground arith in
        finish-AllValid (closed r) q
          (record { size = s.size; first = s.first; bounded = s.bounded }) v finished
  ]

  exit-AllValid :
      (r q : RawExecRelay) (status : ℤ)
      → IsSound r
      → AllValid r
      → on_child_process_exit destroys r status ≡ some q
      → AllValid q
  unfolding on_child_process_exit
  exit-AllValid r q status s v h =
      let ended : RawExecRelay = record r { pidfd = false; status = some status } in
      elim (Bool-cases r.response_pipe) [
        | inl pipe ↦ let made : ended ≡ q = ground arith in subst AllValid made v
        | inr shut ↦
            let finished : finish destroys ended ≡ some q = ground arith in
            finish-AllValid ended q (record { size = s.size; first = s.first; bounded = s.bounded })
              v finished
      ]

  after_read-AllValid :
      (hangup more : Bool) (r q : RawExecRelay)
      → IsSound r
      → AllValid r
      → after_read destroys hangup (r, more) ≡ some q
      → AllValid q
  unfolding after_read
  after_read-AllValid true true r q s v h = close-AllValid r q s v h
  after_read-AllValid true false r q s v h = close-AllValid r q s v h
  after_read-AllValid false false r q s v h = close-AllValid r q s v h
  after_read-AllValid false true r q s v h =
      let made : r ≡ q = ground arith in subst AllValid made v

  try_read-AllValid :
      (r : RawExecRelay) (read : Read) → AllValid r → AllValid (try_read destroys r read).0
  try_read-AllValid r (finds bytes) v =
      subst (λ (calls : List HandlerCall). All IsValidCall calls)
        (sym (try_read-kept destroys r bytes).3) v
  try_read-AllValid r read_fails v =
      subst (λ (p : RawExecRelay × Bool). AllValid p.0) (sym (failed_read_lem destroys r))
        (report-AllValid r (on_relay_error (codes "Zread error") read_error) v refl)

  report-IsSound :
      (r : RawExecRelay) (call : HandlerCall) → IsSound r → IsSound (report destroys r call)
  unfolding report destroy
  report-IsSound r call s = ground arith

  try_read-IsSound :
      (r : RawExecRelay) (read : Read) → IsSound r → IsSound (try_read destroys r read).0
  try_read-IsSound r (finds bytes) s = (try_read-finds destroys r s bytes).0
  try_read-IsSound r read_fails s =
      subst (λ (p : RawExecRelay × Bool). IsSound p.0) (sym (failed_read_lem destroys r))
        (report-IsSound r (on_relay_error (codes "Zread error") read_error) s)

  ready-AllValid :
      (r q : RawExecRelay) (events : Events) (read : Read)
      → IsSound r
      → AllValid r
      → on_response_pipe_ready destroys r events read ≡ some q
      → AllValid q
  unfolding on_response_pipe_ready
  ready-AllValid r q events read s v h = elim (Bool-cases (events.hangup && not events.others)) [
    | inl only ↦
        let done : close_response_pipe destroys r ≡ some q = ground arith in
        close-AllValid r q s v done
    | inr reads ↦
        let done : after_read destroys events.hangup (try_read destroys r read) ≡ some q =
          ground arith in
        after_read-AllValid events.hangup _ _ q (try_read-IsSound r read s)
          (try_read-AllValid r read v) done
  ]

  pub step-AllValid :
      (r q : RawExecRelay) (event : RawEvent)
      → IsSound r
      → AllValid r
      → raw_step destroys r event ≡ some q
      → AllValid q
  unfolding on_request_pipe_ready
  step-AllValid r q (writable write) s v h =
      let made : try_write destroys r write ≡ q = ground arith in
      subst AllValid made (write-AllValid r write v)
  step-AllValid r q (ready events read) s v h = ready-AllValid r q events read s v h
  step-AllValid r q (exits status) s v h = exit-AllValid r q status s v h

  Reaches-AllValid : {r q : RawExecRelay} → Reaches destroys r q → Inv r → AllValid r → AllValid q
  Reaches-AllValid still i v = v
  Reaches-AllValid (moves {q = q} {q' = q'} event reached alive can e) i v =
      step-AllValid q q' event (Reaches-Inv destroys reached i).sound (Reaches-AllValid reached i v)
        e

  spawned-AllValid :
      (r q : RawExecRelay) (sys : System) (action : Action) (write : Write)
      → AllValid r
      → (spawn sys action >>= some_started destroys r write) ≡ some (q, true)
      → AllValid q
  unfolding started
  spawned-AllValid r q sys action write v h = elim (Option-cases (spawn sys action)) [
    | inl overflow ↦ cc
    | inr (threw, e) ↦ absurd (ground arith)
    | inr (running argv env, e) ↦
        let made : try_write destroys (running_relay destroys r) write ≡ q = ground arith in
        subst AllValid made (write-AllValid (running_relay destroys r) write v)
  ]

  start-AllValid :
      (r q : RawExecRelay) (sys : System) (action : Action) (write : Write)
      → AllValid r
      → start destroys sys action write r ≡ some (q, true)
      → AllValid q
  unfolding start
  start-AllValid r q sys action write v h =
      spawned-AllValid r q sys action write v
        (checked_some (is_exec_raw action.type && names_program action.exec) _ h)

  -- After a start, with a buffer of 256 bytes, and any possible events, every response that the
  -- handler of a raw relay was given begins with K, D or Z.
  pub raw_exec_calls_valid :
      (junk : Bytes) (mail : QmqpMail) (headers : List Bytes) (sys : System) (action : Action)
      → (write : Write) (r q : RawExecRelay) → length junk ≡ buffer_size
      → start destroys sys action write (make_raw_exec_relay junk mail headers) ≡ some (r, true)
      → Reaches destroys r q
      → All IsValidCall q.calls
  unfolding make_raw_exec_relay
  raw_exec_calls_valid junk mail headers sys action write r q size h reached =
      Reaches-AllValid reached
        (start-Inv destroys _ r sys action write (new-IsSound destroys junk mail headers size) h)
        (start-AllValid _ r sys action write tt h)
