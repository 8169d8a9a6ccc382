-- ===== src/Relay/Exec/Valid.antt =====
-- The responses that `ExecRelay` (src/ExecRelay.cxx) gives the handler.
use qrelay.Common.{
  none, checked_some, ◌&&◌, ◌>>=◌, Option-cases, inl, inr, arith, Bool-cases, false, not, ◌==◌, ℤ,
  ◌≡◌, refl, Bool, List, [], ◌∷◌, some, Bytes, All, All-append, if_elim,
}
use qrelay.Libcommon.{Generator, Arrays}
use qrelay.Action.{Action, is_exec, names_program}
use qrelay.Qmqp.{QmqpMail}
use qrelay.Relay.Basic.{HandlerCall, IsValidCall, on_netstring_response}
use qrelay.Relay.Basic.Response.{on_netstring_response_valid, exit_response_valid}
use qrelay.Relay.ExitStatus.{is_negative, w_if_signaled, w_exit_status}
use qrelay.Relay.Spawn.{System, threw, running, spawn}
use qrelay.Relay.Exec.{
  ExecRelay, report, make_exec_relay, started, some_started, start, on_child_process_exit,
  on_response, is_deferred, deferred_bytes, ExecEvent, answers, ends, breaks, handle, step, run,
}

pub record IsValid (r : ExecRelay) : Type 0 where
  pub all_valid : All IsValidCall r.calls

report-IsValid :
    (r : ExecRelay) (call : HandlerCall) → IsValid r → IsValidCall call → IsValid (report r call)
report-IsValid r call old new = record {
  all_valid = All-append IsValidCall r.calls (call ∷ []) old.all_valid (new, tt);
}

on_response-IsValid :
    (r : ExecRelay) (payload : Bytes) → IsValid r → IsValid (on_response r payload)
unfolding on_response
on_response-IsValid r payload v =
    if_elim IsValid r.pidfd (record r { deferred_response = some payload })
      (report r (on_netstring_response payload)) (record { all_valid = v.all_valid })
      (report-IsValid r _ v (on_netstring_response_valid payload))

module _ (arrays : Arrays) where
  exit-IsValid :
      (r : ExecRelay) (status : ℤ) → IsValid r → IsValid (on_child_process_exit arrays r status)
  unfolding on_child_process_exit
  exit-IsValid relay status old = elim (Bool-cases (is_negative status)) [
    | inl e ↦ rw e (report-IsValid r _ v refl)
    | inr n ↦ elim (Bool-cases (w_if_signaled status)) [
      | inl e ↦ rw (n, e) (report-IsValid r _ v refl)
      | inr s ↦ elim (Bool-cases (not (w_exit_status status == 0))) [
        | inl e ↦ rw (n, s, e) (report-IsValid r _ v (exit_response_valid (w_exit_status status)))
        | inr z ↦ elim (Bool-cases (is_deferred arrays r.deferred_response)) [
          | inl e ↦
              rw (n, s, z, e)
                (report-IsValid r _ v
                  (on_netstring_response_valid (deferred_bytes r.deferred_response)))
          | inr e ↦ rw (n, s, z, e) v
        ]
      ]
    ]
  ]
    where
      r : ExecRelay
      r = record relay { pidfd = false }

      v : IsValid r
      v = record { all_valid = old.all_valid }

  pub step-IsValid : (r : ExecRelay) (e : ExecEvent) → IsValid r → IsValid (step arrays r e)
  unfolding step handle
  step-IsValid r (answers payload) v =
      on_response-IsValid (record r { requested = none }) payload
        (record { all_valid = v.all_valid })
  step-IsValid r (ends status) v = exit-IsValid r status v
  step-IsValid r breaks v =
      report-IsValid (record r { requested = none }) _ (record { all_valid = v.all_valid }) refl

  run-IsValid : (r : ExecRelay) (es : List ExecEvent) → IsValid r → IsValid (run arrays r es)
  unfolding run
  run-IsValid r [] v = v
  run-IsValid r (e ∷ es) v = run-IsValid (step arrays r e) es (step-IsValid r e v)

  spawned-IsValid :
      (sys : System) (action : Action) (r r' : ExecRelay) (ok : Bool)
      → (spawn sys action >>= some_started r) ≡ some (r', ok)
      → IsValid r
      → IsValid r'
  unfolding started
  spawned-IsValid sys action r r' ok h v = elim (Option-cases (spawn sys action)) [
    | inl overflow ↦ cc
    | inr (threw, e) ↦
        let final : r' ≡ (started r threw).0 = ground arith in rw final (report-IsValid r _ v refl)
    | inr (running argv env, e) ↦
        let same : r'.calls ≡ r.calls = ground arith in record { all_valid = rw same v.all_valid }
  ]

  pub start-IsValid :
      (sys : System) (action : Action) (r r' : ExecRelay) (ok : Bool)
      → start sys action r ≡ some (r', ok)
      → IsValid r
      → IsValid r'
  unfolding start
  start-IsValid sys action r r' ok h v =
      spawned-IsValid sys action r r' ok
        (checked_some (is_exec action.type && names_program action.exec) _ h) v

  -- After `Start` and any events at all, every response that the handler was given begins with K,
  -- D or Z.
  pub exec_calls_valid :
      (generator : Generator) (mail : QmqpMail) (headers : List Bytes) (sys : System)
      (action : Action)
      → (r : ExecRelay) (ok : Bool) (es : List ExecEvent)
      → start sys action (make_exec_relay generator mail headers) ≡ some (r, ok)
      → All IsValidCall (run arrays r es).calls
  unfolding make_exec_relay
  exec_calls_valid generator mail headers sys action r ok es h =
      (run-IsValid r es (start-IsValid sys action _ r ok h (record { all_valid = tt }))).all_valid
