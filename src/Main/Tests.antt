-- ===== src/Main/Tests.antt =====
-- A start with a configuration like that of doc/index.rst, for src/Main.cxx.
use qrelay.Common.{
  ◌≡◌, ◌≢◌, ◌↔◌, ◌⊎◌, refl, Bool, true, false, List, [], ◌∷◌, none, some, Bytes, codes, All,
  if◌then◌else◌,
}
use qrelay.Lua.{number, same_text}
use qrelay.Lua.Globals.{plain}
use qrelay.Exception.{runtime_error, library_error, thrown, completed}
use qrelay.CommandLine.{default_command_line}
use qrelay.Main.{
  Call, sets, listens, l_qmqp_listen, setup_config_state, setup_runtime_state, run_script,
}
use qrelay.Main.Listen.{Listens, l_qmqp_listen_iff}
use qrelay.Main.Bounds.{IsBounded}
use qrelay.Main.Samples.{
  sample_platform, sample_platform-PlatformLaws, sample_system, socket_arguments, sample_script,
  sample_environment, sample_listeners, after_script, with_socket, sample_process, sample_start,
}
use qrelay.Main.Load.{Environment, Process, load_config_file}
use qrelay.Main.Load.Opened.{IsOpened, load_config_file_cases}
use qrelay.Main.Run.{LoopEvent, terminates, hangs_up, calls_lua, event_loop, main}
use qrelay.Main.Run.Start.{new_instance}
use qrelay.Main.Run.Loop.{event_loop-IsListening}
use qrelay.Main.Run.Late.{event_loop_listeners}
use qrelay.Main.Run.Exit.{Ends, Starts, main_exits}

-- A configuration below the current directory, where it is and where it is looked for.
abbrev relative_path : Bytes
relative_path = codes "conf/config.lua"

abbrev found_only_at : Bytes → Environment
found_only_at path = record sample_environment {
  script = λ file. if same_text file path then some sample_script else none;
}

abbrev sample_relative : Process
sample_relative = record {
  instance_of = new_instance sample_platform sample_environment;
  directory = codes "/srv";
}

relative_not_found :
    load_config_file
      (found_only_at (codes "/srv/conf/config.lua"))
      sample_platform
      sample_relative
      relative_path
    ≡ thrown library_error
unfolding load_config_file
relative_not_found = refl

relative_found :
    load_config_file
      (found_only_at (codes "/srv/conf/conf/config.lua"))
      sample_platform
      sample_relative
      relative_path
    ≡ completed (record sample_process { instance_of = after_script })
unfolding load_config_file run_script setup_config_state
relative_found = refl

small_max_size :
    run_script sample_platform (new_instance sample_platform sample_environment) (
      sets (codes "max_size") (plain (number 1023))
      ∷ listens sample_system socket_arguments false
      ∷ [])
    ≡ thrown (runtime_error (codes "`max_size` is too small"))
unfolding run_script
small_max_size = refl

l_qmqp_listen_iff_example :
    (l_qmqp_listen sample_platform sample_system
        (new_instance sample_platform sample_environment)
        socket_arguments
      ≡ completed with_socket)
    ↔ Listens sample_platform sample_system
        (new_instance sample_platform sample_environment)
        socket_arguments
        with_socket
l_qmqp_listen_iff_example =
    l_qmqp_listen_iff sample_platform sample_system
      (new_instance sample_platform sample_environment) with_socket socket_arguments

load_config_file_cases_example :
    (file : Bytes) × (calls : List Call) × IsOpened (codes "/srv") relative_path file
    × ((found_only_at (codes "/srv/conf/conf/config.lua")).script file ≡ some calls)
    × (run_script sample_platform (new_instance sample_platform sample_environment) calls
        ≡ completed after_script)
    × (codes "/" ≡ codes "/")
load_config_file_cases_example =
    load_config_file_cases (found_only_at (codes "/srv/conf/conf/config.lua")) sample_platform
      sample_relative (record sample_process { instance_of = after_script }) relative_path
      relative_found

-- A handler kept qmqp_listen and calls it with a small size, then the process is told to reload
-- and to end.
abbrev sample_events : List LoopEvent
sample_events =
    calls_lua (sets (codes "max_size") (plain (number 10)))
    ∷ calls_lua (listens sample_system socket_arguments true)
    ∷ hangs_up
    ∷ terminates
    ∷ []

event_loop-IsListening_example :
    All IsBounded (event_loop sample_platform sample_process.instance_of sample_events).listeners
    × ((event_loop sample_platform sample_process.instance_of sample_events).listeners ≢ [])
event_loop-IsListening_example =
    event_loop-IsListening sample_platform sample_platform-PlatformLaws sample_environment
      (codes "/root") default_command_line sample_process sample_events sample_start

abbrev late_events : List LoopEvent
late_events = calls_lua (listens sample_system socket_arguments true) ∷ hangs_up ∷ []

event_loop_listeners_example :
    (event_loop sample_platform sample_process.instance_of late_events).listeners ≡ sample_listeners
unfolding setup_runtime_state
event_loop_listeners_example =
    event_loop_listeners sample_platform sample_platform-PlatformLaws sample_environment
      (codes "/root") default_command_line sample_process late_events sample_start (tt, (tt, tt))

sample_exit :
    main sample_platform sample_environment
      (codes "/root")
      (codes "cm4all-qrelay" ∷ [])
      sample_events
    ≡ some 0
unfolding main run_script
sample_exit = refl

main_exits_example :
    ((q : Process) × (b : Bool) × Starts sample_platform sample_environment
        (codes "/root")
        (codes "cm4all-qrelay" ∷ [])
        q
      × Ends sample_events b
      × (main sample_platform sample_environment
            (codes "/root")
            (codes "cm4all-qrelay" ∷ [])
            sample_events
          ≡ (if b then some 0 else none)))
    ⊎ (((q : Process)
          → ¬ Starts sample_platform sample_environment
              (codes "/root")
              (codes "cm4all-qrelay" ∷ [])
              q)
        × (main sample_platform sample_environment
              (codes "/root")
              (codes "cm4all-qrelay" ∷ [])
              sample_events
            ≡ some 1))
main_exits_example =
    main_exits sample_platform sample_environment sample_platform-PlatformLaws (codes "/root")
      (codes "cm4all-qrelay" ∷ []) sample_events
