-- ===== src/Main/Run.antt =====
-- src/Main.cxx: the start of the process, its event loop and its exit status.
pub mod Start
pub mod Loop
pub mod Late
pub mod Exit
use qrelay.Common.{ℕ, Bool, true, false, List, [], ◌∷◌, Option, none, some, Bytes, if◌then◌else◌}
use qrelay.Lua.{nil}
use qrelay.Lua.Globals.{Globals, plain}
use qrelay.Exception.{Outcome, thrown, completed, on_completed}
use qrelay.CommandLine.{CommandLine, parse_command_line}
use qrelay.Instance.{Instance, make_instance, check, setup_log_socket, on_shutdown, on_reload}
use qrelay.Main.{Platform, Call, setup_config_state, setup_runtime_state, run_call}
use qrelay.Main.Load.{Environment, Process, load_config_file}

-- The variables of a new Lua state.
abbrev pub no_globals : Globals
no_globals = λ name. plain nil

-- What the event loop gets: a signal to end or to reload, and what Lua code does that concerns the
-- instance, which is a handler or the function `reload`.
pub data LoopEvent : Type 0 where
  terminates hangs_up : LoopEvent
  calls_lua : Call → LoopEvent

-- An error of Lua code ends that code.
pub after_call : Instance → Outcome Instance → Instance
after_call i (thrown e) = i
after_call i (completed j) = j

exit_status : Outcome Instance → Option ℕ
exit_status (thrown e) = some 1
exit_status (completed i) = if i.broken then some 0 else none

module _ (p : Platform) where
  unfoldable pub on_event : Instance → LoopEvent → Instance
  unfolding on_shutdown on_reload after_call run_call
  on_event i terminates = on_shutdown i
  on_event i hangs_up = on_reload i
  on_event i (calls_lua call) = after_call i (run_call p i call)

  -- `EventLoop::Run`, which returns behind `Break`.
  unfoldable pub event_loop : Instance → List LoopEvent → Instance
  unfolding on_event
  event_loop i [] = i
  event_loop i (e ∷ events) =
      let later = event_loop (on_event i e) events in if i.broken then i else later

  module _ (env : Environment) where
    -- `Run` up to the event loop.
    unfoldable pub start : Bytes → CommandLine → Outcome Process
    unfolding setup_config_state load_config_file check setup_log_socket setup_runtime_state
    start directory cmdline =
        let instance_of = setup_config_state p (make_instance no_globals env.watchdog) in
        let process : Process = record { instance_of = instance_of; directory = directory } in
        on_completed (load_config_file env p process cmdline.config_path) (λ loaded.
          on_completed (check loaded.instance_of) (λ checked.
            on_completed
              (setup_log_socket (λ v. env.to_socket_address v p.log_port) env.connects checked)
              (λ i. completed (record loaded { instance_of = setup_runtime_state p i }))))

    -- `Run`.
    unfoldable pub run : Bytes → List LoopEvent → CommandLine → Outcome Instance
    unfolding start event_loop
    run directory events cmdline =
        on_completed (start directory cmdline)
          (λ process. completed (event_loop process.instance_of events))

    -- `main`: the exit status, or nothing while the event loop waits for the next event.
    unfoldable pub main : Bytes → List Bytes → List LoopEvent → Option ℕ
    unfolding parse_command_line run exit_status
    main directory argv events =
        exit_status (on_completed (parse_command_line argv) (run directory events))
