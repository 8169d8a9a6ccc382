-- ===== src/Connection/Session/Tests.antt =====
-- A session (src/Connection.cxx with src/ExecRelay.cxx) whose program answers and then exits.
use qrelay.Common.{
  ℕ, zero, suc, pos, ◌≡◌, ◌≢◌, ◌≤◌, ◌⊎◌, refl, true, [], ◌∷◌, Option, none, some, Bytes, codes, All,
  length, arith,
}
use qrelay.Libcommon.Samples.{
  sample_text, sample_text-TextLaws, sample_address, sample_generator, sample_strip,
  sample_truncate, sample_arrays,
}
use qrelay.Netstring.{parse_netstring}
use qrelay.Qmqp
use qrelay.MutableMail
use qrelay.Action.{Action, IsBounded, make_action, exec}
use qrelay.Relay.Exec.{answers, ends}
use qrelay.Relay.RawExec.{finishes}
use qrelay.Connection.{init, lua, sends}
use qrelay.Connection.Handler.{requests}
use qrelay.Connection.Handler.Invariant.{IsValidResponse}
use qrelay.Connection.Session.{
  Session, SessionEvent, happens, handler_finishes, relay_happens, RelayEvent, exec_event, Start,
  new_session, session_step,
}
use qrelay.Connection.Session.Relays.{RelayCan}
use qrelay.Connection.Session.Invariant.{IsChildless}
use qrelay.Connection.Session.Nearer.{Nearer}
use qrelay.Connection.Session.Paths.{
  Reaches, opens, moves, session_answers_once, session_step-ne-none, session_waits,
}

abbrev zeros : ℕ → Bytes
zeros zero = []
zeros (suc n) = 0 ∷ zeros n

abbrev sample_start : Start
sample_start = record {
  system = record { stdin_pipe = true; stdout_pipe = true; spawn_error = 0 };
  write = finishes;
  junk = zeros 256;
  capacity = 18;
}

abbrev cat_action : Action
cat_action = record make_action { type = exec; exec = codes "cat" ∷ [] }

cat_action-IsBounded : IsBounded cat_action
cat_action-IsBounded = record {
  exec_fits = omega arith;
  env_fits = omega arith;
  named = λ runs. λ e. cc;
}

abbrev next : SessionEvent → Session → Option Session
next event s =
    session_step sample_truncate sample_text sample_address sample_strip sample_generator
      sample_arrays s event sends

abbrev or_new : Option Session → Session
or_new none = new_session none true
or_new (some s) = s

abbrev request : SessionEvent
request = happens (requests (codes "6: hello,3:f@o,3:b@r,"))

abbrev decision : SessionEvent
decision = handler_finishes (some cat_action) sample_start

abbrev answer : SessionEvent
answer = relay_happens (exec_event (answers (codes "Kok")))

abbrev exit : SessionEvent
exit = relay_happens (exec_event (ends (pos 0)))

abbrev received : Session
received = or_new (next request (new_session none true))

abbrev started : Session
started = or_new (next decision received)

abbrev answered : Session
answered = or_new (next answer started)

abbrev finished : Session
finished = or_new (next exit answered)

received_lem : next request (new_session none true) ≡ some received
unfolding session_step parse_netstring Qmqp.parse MutableMail.parse
received_lem = refl

started_lem : next decision received ≡ some started
unfolding session_step parse_netstring Qmqp.parse MutableMail.parse
started_lem = refl

answered_lem : next answer started ≡ some answered
unfolding session_step parse_netstring Qmqp.parse MutableMail.parse
answered_lem = refl

finished_lem : next exit answered ≡ some finished
unfolding session_step parse_netstring Qmqp.parse MutableMail.parse
finished_lem = refl

passed_on : finished.connection.responses ≡ codes "Kok" ∷ []
unfolding session_step parse_netstring Qmqp.parse MutableMail.parse
passed_on = refl

abbrev SampleReaches : Session → Type 0
SampleReaches =
    Reaches sample_truncate sample_text sample_address sample_strip sample_generator sample_arrays
      none true

reaches_received : SampleReaches received
reaches_received = moves request sends opens refl (tt, refl) (λ e. cc) received_lem

reaches_started : SampleReaches started
unfolding session_step parse_netstring Qmqp.parse MutableMail.parse
reaches_started =
    moves decision sends reaches_received refl
      (refl, ((λ e. cc), cat_action-IsBounded), refl, omega arith) (λ e. cc) started_lem

reaches_answered : SampleReaches answered
unfolding session_step parse_netstring Qmqp.parse MutableMail.parse
reaches_answered =
    moves answer sends reaches_started refl ((λ e. cc), λ e. cc) (λ e. cc) answered_lem

reaches_finished : SampleReaches finished
unfolding session_step parse_netstring Qmqp.parse MutableMail.parse
reaches_finished = moves exit sends reaches_answered refl refl (λ e. cc) finished_lem

session_answers_once_example :
    (length finished.connection.responses ≤ 1)
    × All IsValidResponse finished.connection.responses
    × (length finished.connection.logs ≤ 1)
    × (finished.connection.deleted ≡ true → IsChildless finished.relay)
session_answers_once_example =
    session_answers_once sample_truncate sample_text sample_address sample_strip sample_generator
      sample_arrays sample_text-TextLaws none true finished reaches_finished

session_step-ne-none_example : next exit answered ≢ none
unfolding session_step parse_netstring Qmqp.parse MutableMail.parse
session_step-ne-none_example =
    session_step-ne-none sample_truncate sample_text sample_address sample_strip sample_generator
      sample_arrays sample_text-TextLaws none true answered exit sends reaches_answered refl refl
      (λ e. cc)

session_waits_example :
    (answered.connection.responses ≡ [])
    × ((answered.connection.state ≡ init)
        ⊎ ((answered.connection.state ≡ lua)
            ⊎ ((e : RelayEvent) × RelayCan answered.relay e
                × Nearer sample_arrays sample_truncate answered (next (relay_happens e) answered))))
unfolding session_step parse_netstring Qmqp.parse MutableMail.parse
session_waits_example =
    session_waits sample_truncate sample_text sample_address sample_strip sample_generator
      sample_arrays sample_text-TextLaws none true answered reaches_answered refl
