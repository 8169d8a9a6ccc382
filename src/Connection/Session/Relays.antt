-- ===== src/Connection/Session/Relays.antt =====
-- The relay of a session (src/Connection.cxx with the three relays): what it waits for, what can
-- happen to it, and the one call that it makes.
use qrelay.Common.{
  ◌≤◌, ◌≡◌, ◌≢◌, ◌⊎◌, inl, inr, refl, sym, subst, Bool, true, false, List, [], ◌∷◌, Option, none,
  some, Bytes, All, length, ◌>>=◌,
}
use qrelay.Libcommon.{Generator, Arrays}
use qrelay.Qmqp.{QmqpMail}
use qrelay.Action.{Action, ActionType, IsBounded, connect, exec, exec_raw}
use qrelay.Relay.Basic.{HandlerCall, IsValidCall}
use qrelay.Relay.Basic.Response.{on_netstring_response_valid}
use qrelay.Relay.Remote.{RemoteRelay, make_remote_relay}
use qrelay.Relay.Exec
use qrelay.Relay.Exec.{ExecRelay, ExecEvent, ends, make_exec_relay}
use qrelay.Relay.Exec.Told as ExecTold
use qrelay.Relay.Exec.Valid.{step-IsValid, start-IsValid}
use qrelay.Relay.RawExec
use qrelay.Relay.RawExec.{
  RawExecRelay, finds, buffer_size, make_raw_exec_relay, new_raw_exec_relay, request_parts,
}
use qrelay.Relay.RawExec.Safety
use qrelay.Relay.RawExec.Steps
use qrelay.Relay.RawExec.Steps.{RawEvent, ready, exits, raw_step}
use qrelay.Relay.RawExec.Told as RawTold
use qrelay.Relay.RawExec.Valid.{AllValid, step-AllValid}
use qrelay.Connection.{Send, sends, fails, waits}
use qrelay.Connection.Session.{
  RelayOperation, no_relay, remote_relay, exec_relay, raw_exec_relay, RemoteEvent, connects,
  connect_fails, breaks, answers, RelayEvent, remote_event, exec_event, raw_exec_event, Start, Told,
  told_remote, told_exec, told_raw_exec, destroys, reported, remote_step, relay_step, make_relay,
}

-- The relay has not called its handler, and something is still to happen to it: a connection is
-- made or an answer awaited, or the child or its output is open.
abbrev pub RelayWaits : RelayOperation → Type 0
RelayWaits no_relay = ⊥
RelayWaits (remote_relay r) = (r.connecting ≢ none) ⊎ (r.requested ≢ none)
RelayWaits (exec_relay r) = ExecTold.IsPending r
RelayWaits (raw_exec_relay r) = Safety.Inv r × (r.calls ≡ []) × (r.deleted ≡ false)

-- Where an event of a relay can come.
abbrev pub RelayCan : RelayOperation → RelayEvent → Type 0
RelayCan (remote_relay r) (remote_event connects) = r.connecting ≢ none
RelayCan (remote_relay r) (remote_event connect_fails) = r.connecting ≢ none
RelayCan (remote_relay r) (remote_event breaks) = r.requested ≢ none
RelayCan (remote_relay r) (remote_event (answers payload)) = r.requested ≢ none
RelayCan (exec_relay r) (exec_event e) = ExecTold.Possible r e
RelayCan (raw_exec_relay r) (raw_exec_event e) = Steps.Possible r e
RelayCan no_relay e = ⊥
RelayCan (remote_relay r) (exec_event e) = ⊥
RelayCan (remote_relay r) (raw_exec_event e) = ⊥
RelayCan (exec_relay r) (remote_event e) = ⊥
RelayCan (exec_relay r) (raw_exec_event e) = ⊥
RelayCan (raw_exec_relay r) (remote_event e) = ⊥
RelayCan (raw_exec_relay r) (exec_event e) = ⊥

-- No fault, and either the relay goes on waiting or it makes one call with a valid response.
abbrev pub TellsOnce : Told → Type 0
TellsOnce none = ⊥
TellsOnce (some (relay, [])) = RelayWaits relay
TellsOnce (some (relay, call ∷ [])) = IsValidCall call
TellsOnce (some (relay, call ∷ d ∷ calls)) = ⊥

destroys_lem : (answer : Send) → answer ≢ waits → destroys answer ≡ true
destroys_lem sends w = refl
destroys_lem fails w = refl
destroys_lem waits w = absurd (w refl)

remote_step-TellsOnce :
    (r : RemoteRelay) (e : RemoteEvent)
    → RelayCan (remote_relay r) (remote_event e)
    → TellsOnce (told_remote (remote_step (reported r e) e))
unfolding remote_step
remote_step-TellsOnce r connects can = inr (λ e. cc)
remote_step-TellsOnce r connect_fails can = refl
remote_step-TellsOnce r breaks can = refl
remote_step-TellsOnce r (answers payload) can = on_netstring_response_valid payload

told_exec-TellsOnce :
    (r : ExecRelay) → ExecTold.IsTold r → All IsValidCall r.calls → TellsOnce (told_exec r)
told_exec-TellsOnce r (inl pending) valid =
    subst (λ (calls : List HandlerCall). TellsOnce (some (exec_relay r, calls))) (sym pending.quiet)
      pending
told_exec-TellsOnce r (inr (call, e)) valid =
    subst (λ (calls : List HandlerCall). TellsOnce (some (exec_relay r, calls))) (sym e)
      (subst (All IsValidCall) e valid).0

told_raw_exec-TellsOnce :
    (r : RawExecRelay) → RawTold.IsTold r → Safety.Inv r → AllValid r → TellsOnce (told_raw_exec r)
told_raw_exec-TellsOnce r (inl (quiet, alive)) v valid =
    subst (λ (calls : List HandlerCall). TellsOnce (some (raw_exec_relay r, calls))) (sym quiet)
      (v, quiet, alive)
told_raw_exec-TellsOnce r (inr (call, e)) v valid =
    subst (λ (calls : List HandlerCall). TellsOnce (some (raw_exec_relay r, calls))) (sym e)
      (subst (All IsValidCall) e valid).0

no_calls-valid : (calls : List HandlerCall) → calls ≡ [] → All IsValidCall calls
no_calls-valid calls e = subst (All IsValidCall) (sym e) tt

raw-TellsOnce :
    (o : Option RawExecRelay)
    → Safety.Safe true o
    → RawTold.AfterStep o
    → ((q : RawExecRelay) → o ≡ some q → AllValid q)
    → TellsOnce (o >>= told_raw_exec)
raw-TellsOnce none safe told valid = safe
raw-TellsOnce (some q) safe told valid = told_raw_exec-TellsOnce q told safe (valid q refl)

raw_step-TellsOnce :
    (answer : Send) (r : RawExecRelay) (e : RawEvent)
    → destroys answer ≡ true
    → RelayWaits (raw_exec_relay r)
    → Steps.Possible r e
    → TellsOnce (raw_step (destroys answer) r e >>= told_raw_exec)
raw_step-TellsOnce answer r e d (v, quiet, alive) can =
    subst (λ (b : Bool). TellsOnce (raw_step b r e >>= told_raw_exec)) (sym d)
      (raw-TellsOnce (raw_step true r e) (Steps.step-Safe true r e alive can v)
        (RawTold.step-AfterStep r e can alive quiet)
        (λ q made. step-AllValid true r q e v.sound (no_calls-valid r.calls quiet) made))

module _ (arrays : Arrays) where
  -- An event of a relay that waits.
  pub relay_step-TellsOnce :
      (answer : Send) (relay : RelayOperation) (e : RelayEvent)
      → answer ≢ waits
      → RelayCan relay e
      → RelayWaits relay
      → TellsOnce (relay_step arrays answer relay e)
  unfolding relay_step
  relay_step-TellsOnce answer no_relay e w can v = absurd can
  relay_step-TellsOnce answer (remote_relay r) (exec_event e) w can v = absurd can
  relay_step-TellsOnce answer (remote_relay r) (raw_exec_event e) w can v = absurd can
  relay_step-TellsOnce answer (exec_relay r) (remote_event e) w can v = absurd can
  relay_step-TellsOnce answer (exec_relay r) (raw_exec_event e) w can v = absurd can
  relay_step-TellsOnce answer (raw_exec_relay r) (remote_event e) w can v = absurd can
  relay_step-TellsOnce answer (raw_exec_relay r) (exec_event e) w can v = absurd can
  relay_step-TellsOnce answer (remote_relay r) (remote_event e) w can v =
      remote_step-TellsOnce r e can
  relay_step-TellsOnce answer (exec_relay r) (exec_event e) w can v =
      told_exec-TellsOnce (Exec.step arrays r e) (ExecTold.step-IsTold arrays r e can v)
        (step-IsValid arrays r e (record { all_valid = no_calls-valid r.calls v.quiet })).all_valid
  relay_step-TellsOnce answer (raw_exec_relay r) (raw_exec_event e) w can v =
      raw_step-TellsOnce answer r e (destroys_lem answer w) v can

-- An action that starts a relay.
abbrev pub Relays : Action → Type 0
Relays action = (action.type ≡ connect) ⊎ ((action.type ≡ exec) ⊎ (action.type ≡ exec_raw))

module _ (generator : Generator) where
  exec-TellsOnce :
      (arrays : Arrays) (action : Action) (start : Start) (mail : QmqpMail) (headers : List Bytes)
      → IsBounded action
      → action.type ≡ exec
      → TellsOnce (
          Exec.start start.system action (make_exec_relay generator mail headers) >>= λ r.
          told_exec r.0)
  unfolding make_exec_relay
  exec-TellsOnce arrays action start mail headers fits type =
      let new = make_exec_relay generator mail headers in
      let (q, ok, made, told) = ExecTold.start-IsTold new start.system action fits type refl refl in
      subst (λ o. TellsOnce (o >>= λ r. told_exec r.0)) (sym made)
        (told_exec-TellsOnce q told
          (start-IsValid arrays start.system action new q ok made
            (record { all_valid = tt })).all_valid)

  raw_started-TellsOnce : (q : RawExecRelay) → RawTold.IsStarted q → TellsOnce (told_raw_exec q)
  raw_started-TellsOnce q (inl (v, valid, told)) = told_raw_exec-TellsOnce q told v valid
  raw_started-TellsOnce q (inr (call, e, valid)) =
      subst (λ (calls : List HandlerCall). TellsOnce (some (raw_exec_relay q, calls))) (sym e) valid

  raw_exec-TellsOnce :
      (action : Action) (start : Start) (mail : QmqpMail) (headers : List Bytes)
      → IsBounded action
      → action.type ≡ exec_raw
      → length start.junk ≡ buffer_size
      → length (request_parts mail headers) ≤ start.capacity
      → TellsOnce (
          new_raw_exec_relay start.capacity start.junk mail headers >>= λ new.
          RawExec.start true start.system action start.write new >>= λ r. told_raw_exec r.0)
  unfolding make_raw_exec_relay
  raw_exec-TellsOnce action start mail headers fits type size room =
      let new = make_raw_exec_relay start.junk mail headers in
      let (q, ok, made, started) =
        RawTold.start-IsStarted new start.system action start.write fits type
          (Steps.new-IsSound true start.junk mail headers size) refl refl in
      subst
        (λ (o : Option RawExecRelay). TellsOnce (
          o >>= λ new.
          RawExec.start true start.system action start.write new >>= λ r. told_raw_exec r.0))
        (sym (Steps.new_raw_exec_relay_room true start.capacity start.junk mail headers room))
        (subst (λ o. TellsOnce (o >>= λ r. told_raw_exec r.0)) (sym made)
          (raw_started-TellsOnce q started))

  -- The relay of an action, with its start.
  pub make_relay-TellsOnce :
      (arrays : Arrays) (answer : Send) (action : Action) (start : Start) (mail : QmqpMail)
      (headers : List Bytes)
      → answer ≢ waits
      → Relays action
      → IsBounded action
      → length start.junk ≡ buffer_size
      → length (request_parts mail headers) ≤ start.capacity
      → TellsOnce (make_relay generator answer action.type action start mail headers)
  unfolding make_relay make_remote_relay
  make_relay-TellsOnce arrays answer action start mail headers w relays fits size room =
      elim relays [
        | inl e ↦ typed connect e (inl (λ e. cc))
        | inr (inl e) ↦ typed exec e (exec-TellsOnce arrays action start mail headers fits e)
        | inr (inr e) ↦ typed exec_raw e (
            subst
              (λ (b : Bool). TellsOnce (
                new_raw_exec_relay start.capacity start.junk mail headers >>= λ new.
                RawExec.start b start.system action start.write new >>= λ r. told_raw_exec r.0))
              (sym (destroys_lem answer w))
              (raw_exec-TellsOnce action start mail headers fits e size room))
      ]
    where
      typed :
          (t : ActionType)
          → action.type ≡ t
          → TellsOnce (make_relay generator answer t action start mail headers)
          → TellsOnce (make_relay generator answer action.type action start mail headers)
      typed t e h =
          subst (λ u. TellsOnce (make_relay generator answer u action start mail headers)) (sym e) h
