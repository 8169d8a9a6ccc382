-- ===== src/Relay/RawExec/Told.antt =====
-- The one call of a `RawExecRelay` (src/RawExecRelay.cxx) whose handler deletes it.
use qrelay.Common.{
  ◌≡◌, ◌≢◌, ◌⊎◌, inl, inr, refl, sym, ap, ◌∙◌, subst, ℤ, Bool, true, false, not, ◌&&◌, List, [],
  ◌∷◌, ◌++◌, Option, none, some, codes, All, arith, Bool-cases, Option-cases, ltb, if_elim,
}
use qrelay.Action.{Action, IsBounded, exec_raw, names_program_lem}
use qrelay.Relay.Basic.{HandlerCall, on_relay_error, start_error, IsValidCall}
use qrelay.Relay.Spawn.Bounds.{spawn-ne-none}
use qrelay.Relay.Spawn.{System, Spawned, threw, running, spawn}
use qrelay.Relay.RawExec.{
  RawExecRelay, Events, Read, read_fails, finds, Write, takes, finishes, write_fails, report,
  try_write, try_read, finish, finish_with, after_read, close_response_pipe, on_request_pipe_ready,
  on_child_process_exit, started, start, set_front, first_byte, status_response,
}
use qrelay.Relay.RawExec.Buffer.{IsSound, try_read-kept}
use qrelay.Relay.RawExec.Safety.{
  Inv, closed, close_running, close_gone, finish_lem, exit_open, exit_closed, ready_closes,
  ready_reads, failed_read_lem,
}
use qrelay.Relay.RawExec.Steps.{
  RawEvent, writable, ready, exits, Possible, raw_step, running_relay, started-Inv,
}
use qrelay.Relay.RawExec.Valid.{AllValid, report-calls, write-AllValid}

-- The handler was not called and the relay exists, or it was called once.
abbrev pub IsTold : RawExecRelay → Type 0
IsTold r = ((r.calls ≡ []) × (r.deleted ≡ false)) ⊎ ((call : HandlerCall) × (r.calls ≡ call ∷ []))

abbrev pub AfterStep : Option RawExecRelay → Type 0
AfterStep none = Unit
AfterStep (some r) = IsTold r

report-IsTold : (r : RawExecRelay) (call : HandlerCall) → r.calls ≡ [] → IsTold (report true r call)
report-IsTold r call quiet =
    inr
      (call, report-calls true r call ∙ ap (λ (calls : List HandlerCall). calls ++ call ∷ []) quiet)

write-IsTold :
    (r : RawExecRelay) (write : Write)
    → r.calls ≡ []
    → r.deleted ≡ false
    → IsTold (try_write true r write)
unfolding try_write
write-IsTold r (takes n) quiet alive = inl (quiet, alive)
write-IsTold r finishes quiet alive = inl (quiet, alive)
write-IsTold r write_fails quiet alive = report-IsTold r _ quiet

finish_with-AfterStep :
    (r : RawExecRelay) (status : Option ℤ) → r.calls ≡ [] → AfterStep (finish_with true r status)
unfolding finish_with
finish_with-AfterStep r none quiet = tt
finish_with-AfterStep r (some status) quiet =
    if_elim AfterStep (ltb 1 r.response_fill) _ _
      (report-IsTold
        (record r {
          response_buffer = set_front r.response_buffer (first_byte (status_response status));
        })
        _ quiet)
      (report-IsTold r _ quiet)

finish-AfterStep :
    (r : RawExecRelay)
    → r.response_pipe ≡ false
    → r.pidfd ≡ false
    → r.calls ≡ []
    → AfterStep (finish true r)
finish-AfterStep r shut gone quiet =
    subst AfterStep (sym (finish_lem true r shut gone)) (finish_with-AfterStep r r.status quiet)

close-AfterStep :
    (r : RawExecRelay) → r.deleted ≡ false → r.calls ≡ [] → AfterStep (close_response_pipe true r)
close-AfterStep r alive quiet = elim (Bool-cases r.pidfd) [
  | inl child ↦ subst AfterStep (sym (close_running true r alive child)) (inl (quiet, alive))
  | inr gone ↦
      subst AfterStep (sym (close_gone true r alive gone))
        (finish-AfterStep (closed true r) refl gone quiet)
]

exit-AfterStep :
    (r : RawExecRelay) (status : ℤ)
    → r.deleted ≡ false
    → r.calls ≡ []
    → AfterStep (on_child_process_exit true r status)
exit-AfterStep r status alive quiet = elim (Bool-cases r.response_pipe) [
  | inl pipe ↦ subst AfterStep (sym (exit_open true r status pipe)) (inl (quiet, alive))
  | inr shut ↦
      subst AfterStep (sym (exit_closed true r status shut))
        (finish-AfterStep (record r { pidfd = false; status = some status }) shut refl quiet)
]

after_read-AfterStep :
    (hangup more : Bool) (r : RawExecRelay)
    → r.deleted ≡ false
    → r.calls ≡ []
    → AfterStep (after_read true hangup (r, more))
unfolding after_read
after_read-AfterStep true true r alive quiet = close-AfterStep r alive quiet
after_read-AfterStep true false r alive quiet = close-AfterStep r alive quiet
after_read-AfterStep false true r alive quiet = inl (quiet, alive)
after_read-AfterStep false false r alive quiet = close-AfterStep r alive quiet

after_failed_read-AfterStep :
    (r : RawExecRelay) → IsTold r → AfterStep (after_read true false (r, true))
unfolding after_read
after_failed_read-AfterStep r told = told

read-AfterStep :
    (r : RawExecRelay) (events : Events) (read : Read)
    → r.deleted ≡ false
    → r.calls ≡ []
    → (events.hangup ≡ true → events.others ≡ true → read ≢ read_fails)
    → events.hangup && not events.others ≡ false
    → AfterStep (after_read true events.hangup (try_read true r read))
read-AfterStep r events (finds bytes) alive quiet fine reads =
    let (child, pipe, same, calls, status) = try_read-kept true r bytes in
    after_read-AfterStep events.hangup (try_read true r (finds bytes)).1
      (try_read true r (finds bytes)).0 (same ∙ alive) (calls ∙ quiet)
read-AfterStep r events read_fails alive quiet fine reads = elim (Bool-cases events.hangup) [
  | inl hangup ↦ absurd (fine hangup (ground arith) refl)
  | inr calm ↦
      rw (calm, failed_read_lem true r) (after_failed_read-AfterStep _ (report-IsTold r _ quiet))
]

request_pipe-IsTold :
    (r : RawExecRelay) (write : Write)
    → r.deleted ≡ false
    → r.calls ≡ []
    → IsTold (on_request_pipe_ready true r write)
unfolding on_request_pipe_ready
request_pipe-IsTold r write alive quiet = write-IsTold r write quiet alive

-- A possible event of a relay that has not called its handler.
pub step-AfterStep :
    (r : RawExecRelay) (event : RawEvent)
    → Possible r event
    → r.deleted ≡ false
    → r.calls ≡ []
    → AfterStep (raw_step true r event)
step-AfterStep r (writable write) can alive quiet = request_pipe-IsTold r write alive quiet
step-AfterStep r (ready events read) can alive quiet =
    elim (Bool-cases (events.hangup && not events.others)) [
      | inl only ↦
          subst AfterStep (sym (ready_closes true r events read (ground arith) (ground arith)))
            (close-AfterStep r alive quiet)
      | inr reads ↦
          subst AfterStep (sym (ready_reads true r events read reads))
            (read-AfterStep r events read alive quiet can.1 reads)
    ]
step-AfterStep r (exits status) can alive quiet = exit-AfterStep r status alive quiet

-- What a start leaves: a relay that goes on, or one call.
abbrev pub IsStarted : RawExecRelay → Type 0
IsStarted q =
    (Inv q × AllValid q × IsTold q)
    ⊎ ((call : HandlerCall) × (q.calls ≡ call ∷ []) × IsValidCall call)

started-IsStarted :
    (r : RawExecRelay) (write : Write) (s : Spawned)
    → IsSound r
    → r.calls ≡ []
    → r.deleted ≡ false
    → IsStarted (started true r write s).0
unfolding started
started-IsStarted r write threw sound quiet alive = inr (
  on_relay_error (codes "Zinternal server error") start_error,
  report-calls true r _
      ∙ ap
          (λ (calls : List HandlerCall).
            calls ++ on_relay_error (codes "Zinternal server error") start_error ∷ [])
          quiet,
  refl,
)
started-IsStarted r write (running argv env) sound quiet alive = inl (
  started-Inv true r _ write (running argv env) sound refl,
  write-AllValid true (running_relay true r) write (subst (All IsValidCall) (sym quiet) tt),
  write-IsTold (running_relay true r) write quiet alive,
)

-- A start with an action whose strings fit.
pub start-IsStarted :
    (r : RawExecRelay) (sys : System) (action : Action) (write : Write)
    → IsBounded action
    → action.type ≡ exec_raw
    → IsSound r
    → r.calls ≡ []
    → r.deleted ≡ false
    → (q : RawExecRelay) × (ok : Bool) × (start true sys action write r ≡ some (q, ok))
      × IsStarted q
unfolding start
start-IsStarted r sys action write fits type sound quiet alive =
    elim (Option-cases (spawn sys action)) [
      | inl overflow ↦ absurd (spawn-ne-none sys action fits.exec_fits fits.env_fits overflow)
      | inr (s, e) ↦ (
        (started true r write s).0,
        (started true r write s).1,
        rw (type, names_program_lem action.exec (fits.named (inr type)), e),
        started-IsStarted r write s sound quiet alive,
      )
    ]
