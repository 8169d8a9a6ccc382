-- ===== src/Relay/RawExec/Tests.antt =====
-- Runs of `RawExecRelay` (src/RawExecRelay.cxx).
use qrelay.Common.{
  ℕ, zero, suc, pos, ◌≡◌, ◌≢◌, ◌≤◌, ◌⊎◌, refl, true, false, [], ◌∷◌, none, some, arith, Bytes,
  codes, length, concat, ◌>>=◌, All,
}
use qrelay.Qmqp.{QmqpMail, no_mail}
use qrelay.Action.{Action, make_action, exec_raw}
use qrelay.Relay.Spawn.{System}
use qrelay.Relay.RawExec.{
  RawExecRelay, buffer_size, read_fails, finds, takes, make_raw_exec_relay, start, status_call,
  on_response_pipe_ready, on_child_process_exit,
}
use qrelay.Relay.RawExec.Order.{pipe_exit_order}
use qrelay.Relay.RawExec.Outcome.{IsRunning, readable, read_all, raw_response, raw_exec_outcome}
use qrelay.Relay.RawExec.Safety.{failed_read_hangup_faults}
use qrelay.Relay.RawExec.Valid.{raw_exec_calls_valid}
use qrelay.Relay.Basic.{IsValidCall}
use qrelay.Relay.RawExec.Steps.{
  still, moves, ready, exits, raw_step, raw_exec_reports, raw_exec_step-ne-none,
}

abbrev zeros : ℕ → Bytes
zeros zero = []
zeros (suc n) = 0 ∷ zeros n

abbrev raw_started : RawExecRelay
raw_started = record {
  pidfd = true;
  pending = codes "hi";
  written = [];
  request_pipe = true;
  response_pipe = true;
  response_buffer = zeros 256;
  response_fill = 1;
  status = none;
  killed = false;
  deleted = false;
  calls = [];
}

raw_started-IsRunning : IsRunning raw_started
raw_started-IsRunning = record {
  child = refl;
  pipe = refl;
  alive = refl;
  sound = record { size = refl; first = omega arith; bounded = omega arith };
}

pipe_exit_order_example :
    (on_response_pipe_ready true raw_started readable (finds (codes "oops")) >>= λ q.
    on_child_process_exit true q (pos 256))
    ≡ (on_child_process_exit true raw_started (pos 256) >>= λ q.
        on_response_pipe_ready true q readable (finds (codes "oops")))
pipe_exit_order_example =
    pipe_exit_order true raw_started readable (codes "oops") (pos 256) refl refl refl

raw_exec_outcome_example :
    (q : RawExecRelay) × ((read_all true raw_started (codes "oo" ∷ codes "ps" ∷ []) >>= λ p.
    on_response_pipe_ready true p readable (finds []) >>= λ p'.
    on_child_process_exit true p' (pos 256))
      ≡ some q)
    × (q.calls
        ≡ status_call (pos 256) (raw_response (pos 256) (concat (codes "oo" ∷ codes "ps" ∷ [])))
          ∷ [])
raw_exec_outcome_example =
    raw_exec_outcome true raw_started (codes "oo" ∷ codes "ps" ∷ []) (pos 256) raw_started-IsRunning
      refl refl ((λ e. cc), ((λ e. cc), tt))

failed_read_hangup_faults_example :
    on_response_pipe_ready true raw_started (record { hangup = true; others = true }) read_fails
    ≡ none
failed_read_hangup_faults_example =
    failed_read_hangup_faults raw_started (record { hangup = true; others = true }) refl refl

abbrev raw_action : Action
raw_action = record make_action { type = exec_raw; exec = codes "/bin/cat" ∷ [] }

abbrev raw_system : System
raw_system = record { stdin_pipe = true; stdout_pipe = true; spawn_error = 0 }

abbrev hi_mail : QmqpMail
hi_mail = record no_mail { message = codes "hi" }

raw_program_started :
    start true raw_system raw_action (takes 0) (make_raw_exec_relay (zeros 256) hi_mail [])
    ≡ some (raw_started, true)
unfolding start make_raw_exec_relay
raw_program_started = refl

abbrev raw_ended : RawExecRelay
raw_ended = record raw_started { pidfd = false; status = some (pos 0) }

raw_end : raw_step true raw_started (exits (pos 0)) ≡ some raw_ended
unfolding on_child_process_exit
raw_end = refl

raw_exec_reports_example :
    (1 ≤ buffer_size) × ((true ≡ true) ⊎ ((false ≡ true) ⊎ (1 ≤ length raw_ended.calls)))
raw_exec_reports_example =
    raw_exec_reports true (zeros 256) hi_mail [] raw_system raw_action (takes 0) raw_started
      raw_ended refl raw_program_started (moves (exits (pos 0)) still refl refl raw_end)

raw_exec_step-ne-none_example :
    raw_step true raw_ended (ready (record { hangup = true; others = false }) (finds [])) ≢ none
raw_exec_step-ne-none_example =
    raw_exec_step-ne-none true (zeros 256) hi_mail [] raw_system raw_action (takes 0) raw_started
      raw_ended (ready (record { hangup = true; others = false }) (finds [])) refl
      raw_program_started (moves (exits (pos 0)) still refl refl raw_end) refl (refl, λ h o. cc)

raw_exec_calls_valid_example : All IsValidCall raw_ended.calls
raw_exec_calls_valid_example =
    raw_exec_calls_valid true (zeros 256) hi_mail [] raw_system raw_action (takes 0) raw_started
      raw_ended refl raw_program_started (moves (exits (pos 0)) still refl refl raw_end)
