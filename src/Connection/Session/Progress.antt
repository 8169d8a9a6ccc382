-- ===== src/Connection/Session/Progress.antt =====
-- What can happen next to a relay that waits (the three relays that src/Connection.cxx makes), and
-- that it brings the relay nearer to its end.
use qrelay.Common.{
  ℕ, ◌+◌, ◌<◌, ◌≡◌, ◌≢◌, inl, inr, refl, sym, ap, ◌∙◌, subst, ℤ, pos, Bool, true, false, List, [],
  ◌∷◌, Option, none, some, Bytes, ◌>>=◌, is_some, arith, Bool-cases, Option-cases, if_elim, ltb,
}
use qrelay.Relay.Basic.{HandlerCall}
use qrelay.Relay.Remote.{RemoteRelay, on_socket_connect_success}
use qrelay.Relay.Exec
use qrelay.Relay.Exec.{ExecRelay, ends}
use qrelay.Relay.RawExec
use qrelay.Relay.RawExec.{RawExecRelay, finds, report, destroy, finish_with}
use qrelay.Relay.RawExec.Safety
use qrelay.Relay.RawExec.Safety.{
  closed, close_gone, finish_lem, exit_open, exit_closed, ready_closes,
}
use qrelay.Relay.RawExec.Steps.{ready, exits, raw_step}
use qrelay.Libcommon.{Arrays}
use qrelay.Connection.{sends}
use qrelay.Connection.Session.{
  RelayOperation, no_relay, remote_relay, exec_relay, raw_exec_relay, connects, breaks, RelayEvent,
  remote_event, exec_event, raw_exec_event, Told, told_remote, told_exec, told_raw_exec, reported,
  remote_step, relay_step,
}
use qrelay.Connection.Session.Relays.{RelayWaits, RelayCan}

abbrev flag : Bool → ℕ
flag true = 1
flag false = 0

-- How many results a relay has still to get: a connection and an answer, or an answer and the exit
-- of the child, or the end of its output and its exit.
abbrev pub outstanding : RelayOperation → ℕ
outstanding no_relay = 0
outstanding (remote_relay r) =
    flag (is_some r.connecting) + flag (is_some r.connecting) + flag (is_some r.requested)
outstanding (exec_relay r) = flag r.pidfd + flag (is_some r.requested)
outstanding (raw_exec_relay r) = flag r.pidfd + flag r.response_pipe

-- A call of the handler, or a result less to get.
abbrev pub Progress : RelayOperation → Told → Type 0
Progress relay none = ⊥
Progress relay (some (next, [])) = outstanding next < outstanding relay
Progress relay (some (next, call ∷ calls)) = Unit

fewer-Progress :
    (relay next : RelayOperation) (calls : List HandlerCall)
    → outstanding next < outstanding relay
    → Progress relay (some (next, calls))
fewer-Progress relay next [] h = h
fewer-Progress relay next (call ∷ calls) h = tt

some_flag : {A : Type 0} (o : Option A) → o ≢ none → flag (is_some o) ≡ 1
some_flag none h = absurd (h refl)
some_flag (some a) h = refl

remote-Progress :
    (r : RemoteRelay)
    → r.connecting ≢ none
    → Progress (remote_relay r) (told_remote (remote_step (reported r connects) connects))
unfolding remote_step on_socket_connect_success
remote-Progress r new = omega (arith, some_flag r.connecting new)

breaks-Progress :
    (r : RemoteRelay)
    → Progress (remote_relay r) (told_remote (remote_step (reported r breaks) breaks))
unfolding remote_step
breaks-Progress r = tt

report_done :
    (r : RawExecRelay) (call : HandlerCall) → outstanding (raw_exec_relay (report true r call)) ≡ 0
unfolding report destroy
report_done r call = ground arith

finish_with-Progress :
    (relay : RelayOperation) (r : RawExecRelay) (status : ℤ)
    → 0 < outstanding relay
    → Progress relay (finish_with true r (some status) >>= told_raw_exec)
unfolding finish_with
finish_with-Progress relay r status h =
    if_elim (λ (o : Option RawExecRelay). Progress relay (o >>= told_raw_exec))
      (ltb 1 r.response_fill) _ _
      (reported_call
        (record r {
          response_buffer =
              RawExec.set_front r.response_buffer
                (RawExec.first_byte (RawExec.status_response status));
        })
        _)
      (reported_call r _)
  where
    reported_call :
        (q : RawExecRelay) (call : HandlerCall)
        → Progress relay (told_raw_exec (report true q call))
    reported_call q call =
        fewer-Progress relay (raw_exec_relay (report true q call)) (report true q call).calls
          (omega (arith, report_done q call, h))

-- The exit of the child, and the end of its output.
exit-Progress :
    (r : RawExecRelay) (status : ℤ)
    → r.pidfd ≡ true
    → Progress (raw_exec_relay r) (raw_step true r (exits status) >>= told_raw_exec)
exit-Progress r status child = elim (Bool-cases r.response_pipe) [
  | inl pipe ↦
      subst (λ (o : Option RawExecRelay). Progress (raw_exec_relay r) (o >>= told_raw_exec))
        (sym (exit_open true r status pipe))
        (fewer-Progress (raw_exec_relay r)
          (raw_exec_relay (record r { pidfd = false; status = some status })) r.calls
          (omega (arith, ap flag child)))
  | inr shut ↦
      subst (λ (o : Option RawExecRelay). Progress (raw_exec_relay r) (o >>= told_raw_exec))
        (sym (
          exit_closed true r status shut
          ∙ finish_lem true (record r { pidfd = false; status = some status }) shut refl))
        (finish_with-Progress (raw_exec_relay r) (record r { pidfd = false; status = some status })
          status (omega (arith, ap flag child)))
]

hangup-Progress :
    (r : RawExecRelay)
    → Safety.Inv r
    → r.deleted ≡ false
    → r.pidfd ≡ false
    → r.response_pipe ≡ true
    → Progress (raw_exec_relay r) (
        raw_step true r (ready (record { hangup = true; others = false }) (finds []))
        >>= told_raw_exec)
hangup-Progress r v alive gone pipe = elim (Option-cases r.status) [
  | inl missing ↦ absurd (v.known alive gone missing)
  | inr (status, e) ↦
      subst (λ (o : Option RawExecRelay). Progress (raw_exec_relay r) (o >>= told_raw_exec))
        (sym (
          ready_closes true r (record { hangup = true; others = false }) (finds []) refl refl
          ∙ close_gone true r alive gone
          ∙ finish_lem true (closed true r) refl gone
          ∙ ap (finish_with true (closed true r)) e))
        (finish_with-Progress (raw_exec_relay r) (closed true r) status
          (omega (arith, ap flag pipe)))
]

module _ (arrays : Arrays) where
  exec_exit_flags :
      (r : ExecRelay) (status : ℤ)
      → ((Exec.on_child_process_exit arrays r status).pidfd ≡ false)
        × ((Exec.on_child_process_exit arrays r status).requested ≡ r.requested)
  unfolding Exec.on_child_process_exit
  exec_exit_flags r status = ground arith

  exec_exit-Progress :
      (r : ExecRelay) (status : ℤ)
      → r.pidfd ≡ true
      → Progress (exec_relay r) (told_exec (Exec.step arrays r (ends status)))
  unfolding Exec.step Exec.handle
  exec_exit-Progress r status child =
      let q = Exec.on_child_process_exit arrays r status in
      let (gone, same) = exec_exit_flags r status in
      fewer-Progress (exec_relay r) (exec_relay q) q.calls (
        omega (
          arith,
          ap flag child,
          ap flag gone,
          ap (λ (o : Option (List Bytes)). flag (is_some o)) same,
        ))

  exec_breaks-Progress :
      (r : ExecRelay)
      → r.calls ≡ []
      → Progress (exec_relay r) (told_exec (Exec.step arrays r Exec.breaks))
  unfolding Exec.step Exec.handle Exec.on_error
  exec_breaks-Progress r quiet = rw quiet tt

  -- To a relay that waits something can happen by which it calls its handler or has less to get.
  pub relay-Progress :
      (relay : RelayOperation)
      → RelayWaits relay
      → (e : RelayEvent) × RelayCan relay e × Progress relay (relay_step arrays sends relay e)
  unfolding relay_step
  relay-Progress no_relay waiting = absurd waiting
  relay-Progress (remote_relay r) (inl new) = (remote_event connects, new, remote-Progress r new)
  relay-Progress (remote_relay r) (inr requested) =
      (remote_event breaks, requested, breaks-Progress r)
  relay-Progress (exec_relay r) pending = elim (Bool-cases r.pidfd) [
    | inl child ↦ (exec_event (ends (pos 0)), child, exec_exit-Progress r (pos 0) child)
    | inr gone ↦ (
      exec_event Exec.breaks,
      elim pending.waits_for [ inl child ↦ cc | inr requested ↦ requested ],
      exec_breaks-Progress r pending.quiet,
    )
  ]
  relay-Progress (raw_exec_relay r) (v, quiet, alive) = elim (Bool-cases r.pidfd) [
    | inl child ↦ (raw_exec_event (exits (pos 0)), child, exit-Progress r (pos 0) child)
    | inr gone ↦ elim (Bool-cases r.response_pipe) [
      | inl pipe ↦ (
        raw_exec_event (ready (record { hangup = true; others = false }) (finds [])),
        (pipe, λ h o. cc),
        hangup-Progress r v alive gone pipe,
      )
      | inr shut ↦ absurd (ground (arith, v.reported shut gone))
    ]
  ]
