-- ===== src/Relay/Exec/Tests.antt =====
-- Runs of `ExecRelay` (src/ExecRelay.cxx).
use mathlib.Core.List.{head?}
use qrelay.Common.{pos, ◌≡◌, refl, true, false, [], ◌∷◌, none, some, codes, All}
use qrelay.Libcommon.Samples.{sample_arrays, sample_generator}
use qrelay.Qmqp.{no_mail}
use qrelay.Action.{Action, make_action, exec}
use qrelay.Relay.Basic.{IsValidCall}
use qrelay.Relay.Spawn.{System}
use qrelay.Relay.Exec.{
  ExecRelay, make_exec_relay, start, on_response, on_child_process_exit, answers, ends, run,
}
use qrelay.Relay.Exec.Order.{IsWaiting, response_exit_order}
use qrelay.Relay.Exec.Valid.{exec_calls_valid}

abbrev waiting : ExecRelay
waiting = record {
  request = [];
  pidfd = true;
  deferred_response = none;
  requested = some [];
  killed = false;
  calls = [];
}

waiting-IsWaiting : IsWaiting waiting
waiting-IsWaiting = record { child = refl; no_answer = refl; no_call = refl }

response_exit_order_example :
    head? (on_child_process_exit sample_arrays (on_response waiting (codes "Kok")) (pos 256)).calls
    ≡ head?
        (on_response (on_child_process_exit sample_arrays waiting (pos 256)) (codes "Kok")).calls
response_exit_order_example =
    response_exit_order sample_arrays waiting b'K' (codes "ok") (pos 256) waiting-IsWaiting

abbrev exec_action : Action
exec_action = record make_action { type = exec; exec = codes "/bin/cat" ∷ [] }

abbrev sample_system : System
sample_system = record { stdin_pipe = true; stdout_pipe = true; spawn_error = 0 }

abbrev sample_started : ExecRelay
sample_started = record (make_exec_relay sample_generator no_mail []) {
  pidfd = true;
  requested = some (make_exec_relay sample_generator no_mail []).request;
  request = [];
}

program_started :
    start sample_system exec_action (make_exec_relay sample_generator no_mail [])
    ≡ some (sample_started, true)
unfolding start
program_started = refl

exec_calls_valid_example :
    All IsValidCall
      (run sample_arrays sample_started (answers (codes "Xno") ∷ ends (pos 0) ∷ [])).calls
exec_calls_valid_example =
    exec_calls_valid sample_arrays sample_generator no_mail [] sample_system exec_action
      sample_started true (answers (codes "Xno") ∷ ends (pos 0) ∷ []) program_started
