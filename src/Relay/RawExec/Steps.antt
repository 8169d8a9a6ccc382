-- ===== src/Relay/RawExec/Steps.antt =====
-- `RawExecRelay` (src/RawExecRelay.cxx) from its start to its last event: the paths of events.
use qrelay.Common.{
  ℕ, checked_some, ◌&&◌, ◌>>=◌, ◌≤◌, ◌≡◌, ◌≢◌, refl, sym, ap, ◌∙◌, subst, Bool, true, false, List,
  Option, none, some, arith, Bytes, length, ℤ, inl, inr, Option-cases, Bool-cases, ◌⊎◌,
}
use qrelay.Qmqp.{QmqpMail}
use qrelay.Action.{Action, is_exec_raw, names_program}
use qrelay.Relay.Spawn.{Slot, System, Spawned, threw, running, spawn}
use qrelay.Relay.RawExec.{
  RawExecRelay, buffer_size, Events, Read, read_fails, Write, make_raw_exec_relay,
  new_raw_exec_relay, request_parts, start, started, some_started, try_write, on_request_pipe_ready,
  on_response_pipe_ready, on_child_process_exit,
}
use qrelay.Relay.RawExec.Buffer.{IsSound}
use qrelay.Relay.RawExec.Safety.{Inv, Safe, exit-Safe, write-Inv, ready-Safe}

-- What a started relay can be told.
pub data RawEvent : Type 0 where
  writable : Write → RawEvent
  ready : Events → Read → RawEvent
  exits : ℤ → RawEvent

-- Where an event can come: a pipe that is open, a child that runs. A read does not fail in an event
-- that also says that the pipe was hung up.
abbrev pub Possible : RawExecRelay → RawEvent → Type 0
Possible r (writable write) = r.request_pipe ≡ true
Possible r (ready events read) =
    (r.response_pipe ≡ true) × (events.hangup ≡ true → events.others ≡ true → read ≢ read_fails)
Possible r (exits status) = r.pidfd ≡ true

module _ (destroys : Bool) where
  abbrev pub raw_step : RawExecRelay → RawEvent → Option RawExecRelay
  raw_step r (writable write) = some (on_request_pipe_ready destroys r write)
  raw_step r (ready events read) = on_response_pipe_ready destroys r events read
  raw_step r (exits status) = on_child_process_exit destroys r status

  -- `q` is reached from `r` by possible events, none of which comes to a deleted object.
  pub data Reaches (r : RawExecRelay) : RawExecRelay → Type 0 where
    still : Reaches r r
    moves :
        {q q' : RawExecRelay} (event : RawEvent)
        → Reaches r q
        → q.deleted ≡ false
        → Possible q event
        → raw_step q event ≡ some q'
        → Reaches r q'

  request_pipe-Inv :
      (r : RawExecRelay) (write : Write) → Inv r → Inv (on_request_pipe_ready destroys r write)
  unfolding on_request_pipe_ready
  request_pipe-Inv r write v = write-Inv destroys r write v

  pub step-Safe :
      (r : RawExecRelay) (event : RawEvent)
      → r.deleted ≡ false
      → Possible r event
      → Inv r
      → Safe destroys (raw_step r event)
  step-Safe r (writable write) alive can v = request_pipe-Inv r write v
  step-Safe r (ready events read) alive can v = ready-Safe destroys r events read alive v can.1
  step-Safe r (exits status) alive can v = exit-Safe destroys r status v

  pub Reaches-Inv : {r q : RawExecRelay} → Reaches r q → Inv r → Inv q
  Reaches-Inv still v = v
  Reaches-Inv (moves {q = q} event reached alive can e) v =
      subst (Safe destroys) e (step-Safe q event alive can (Reaches-Inv reached v))

  threw_false : (r : RawExecRelay) (write : Write) → (started destroys r write threw).1 ≡ false
  unfolding started
  threw_false r write = refl

  abbrev pub running_relay : RawExecRelay → RawExecRelay
  running_relay r = record r { pidfd = true; response_pipe = true; request_pipe = true }

  running_lem :
      (r : RawExecRelay) (write : Write) (argv env : List Slot)
      → (started destroys r write (running argv env)).0 ≡ try_write destroys (running_relay r) write
  unfolding started
  running_lem r write argv env = refl

  pub started-Inv :
      (r q : RawExecRelay) (write : Write) (s : Spawned)
      → IsSound r
      → started destroys r write s ≡ (q, true)
      → Inv q
  started-Inv r q write threw sound h =
      let e : true ≡ false = ap (λ (p : RawExecRelay × Bool). p.1) (sym h) ∙ threw_false r write in
      cc
  started-Inv r q write (running argv env) sound h =
      subst Inv (sym (running_lem r write argv env) ∙ ap (λ (p : RawExecRelay × Bool). p.0) h) (
        write-Inv destroys (running_relay r) write (record {
          sound = record { size = sound.size; first = sound.first; bounded = sound.bounded };
          known = λ d g. cc;
          reported = λ s g. cc;
        }))

  spawned-Inv :
      (r q : RawExecRelay) (sys : System) (action : Action) (write : Write)
      → IsSound r
      → (spawn sys action >>= some_started destroys r write) ≡ some (q, true)
      → Inv q
  spawned-Inv r q sys action write sound h = elim (Option-cases (spawn sys action)) [
    | inl overflow ↦ cc
    | inr (s, e) ↦ started-Inv r q write s sound (ground arith)
  ]

  pub start-Inv :
      (r q : RawExecRelay) (sys : System) (action : Action) (write : Write)
      → IsSound r
      → start destroys sys action write r ≡ some (q, true)
      → Inv q
  unfolding start
  start-Inv r q sys action write sound h =
      spawned-Inv r q sys action write sound
        (checked_some (is_exec_raw action.type && names_program action.exec) _ h)

  pub new-IsSound :
      (junk : Bytes) (mail : QmqpMail) (headers : List Bytes)
      → length junk ≡ buffer_size
      → IsSound (make_raw_exec_relay junk mail headers)
  unfolding make_raw_exec_relay
  new-IsSound junk mail headers h = ground arith

  pub new_raw_exec_relay_room :
      (capacity : ℕ) (junk : Bytes) (mail : QmqpMail) (headers : List Bytes)
      → length (request_parts mail headers) ≤ capacity
      → new_raw_exec_relay capacity junk mail headers ≡ some (make_raw_exec_relay junk mail headers)
  unfolding new_raw_exec_relay
  new_raw_exec_relay_room capacity junk mail headers h = ground arith

  called :
      (q : RawExecRelay)
      → Inv q
      → (q.response_pipe ≡ true) ⊎ ((q.pidfd ≡ true) ⊎ (1 ≤ length q.calls))
  called q v = elim (Bool-cases q.response_pipe) [
    | inl pipe ↦ inl pipe
    | inr shut ↦ elim (Bool-cases q.pidfd) [
      | inl child ↦ inr (inl child)
      | inr gone ↦ inr (inr (v.reported shut gone))
    ]
  ]

  -- A raw relay that was started, with a buffer of 256 bytes, never ends silently: after any
  -- possible events, its output is open, or the child runs, or the handler was called; and the
  -- buffer's fill is in its bounds. In the events no read fails together with a hangup.
  pub raw_exec_reports :
      (junk : Bytes) (mail : QmqpMail) (headers : List Bytes) (sys : System) (action : Action)
      → (write : Write) (r q : RawExecRelay) → length junk ≡ buffer_size
      → start destroys sys action write (make_raw_exec_relay junk mail headers) ≡ some (r, true)
      → Reaches r q
      → (q.response_fill ≤ buffer_size)
        × ((q.response_pipe ≡ true) ⊎ ((q.pidfd ≡ true) ⊎ (1 ≤ length q.calls)))
  raw_exec_reports junk mail headers sys action write r q size h reached =
      let v =
        Reaches-Inv reached
          (start-Inv _ r sys action write (new-IsSound junk mail headers size) h) in
      (v.sound.bounded, called q v)

  -- For such a relay that is not deleted, the next possible event does not fault: none meets a
  -- deleted object, a missing status, or a failed assertion.
  pub raw_exec_step-ne-none :
      (junk : Bytes) (mail : QmqpMail) (headers : List Bytes) (sys : System) (action : Action)
      → (write : Write) (r q : RawExecRelay) (event : RawEvent) → length junk ≡ buffer_size
      → start destroys sys action write (make_raw_exec_relay junk mail headers) ≡ some (r, true)
      → Reaches r q
      → q.deleted ≡ false
      → Possible q event
      → raw_step q event ≢ none
  raw_exec_step-ne-none junk mail headers sys action write r q event size h reached alive can e =
      subst (Safe destroys) e (
        step-Safe q event alive can (
          Reaches-Inv reached
            (start-Inv _ r sys action write (new-IsSound junk mail headers size) h)))
