-- ===== src/Main/Samples.antt =====
-- A platform, and a configuration like that of doc/index.rst with the process that it leaves, for
-- the tests of src/Main.cxx.
use qrelay.Common.{◌≡◌, refl, pos, true, false, List, [], ◌∷◌, none, some, codes, if◌then◌else◌}
use qrelay.Lua.{string, number, same_text}
use qrelay.Lua.Globals.{Value, plain, function, lua_function, light_user_data, set_global}
use qrelay.Lua.Samples.{sample_lua}
use qrelay.Exception.{completed}
use qrelay.CommandLine.{default_command_line}
use qrelay.Instance.{Instance, Listener, System, add_listener}
use qrelay.Main.{
  Platform, PlatformLaws, systemd_magic, Call, sets, listens, setup_runtime_state, run_script,
}
use qrelay.Main.Load.{Environment, Process}
use qrelay.Main.Run.{start}
use qrelay.Main.Run.Start.{new_instance}

abbrev pub sample_platform : Platform
sample_platform = record {
  lua = sample_lua;
  to_integer = pos;
  open_libraries = λ globals. globals;
  open_runtime_libraries = λ globals. globals;
  log_port = 5479;
  control_port = 5478;
}

pub sample_platform-PlatformLaws : PlatformLaws sample_platform
sample_platform-PlatformLaws = record {
  to_integer-of_natural = λ n h. refl;
  keeps_max_size = λ globals. refl;
  keeps_qmqp_listen = λ globals. refl;
}

-- A path gets the socket 9, and systemd passes two.
abbrev pub sample_system : System
sample_system = record { create = λ config. some 9; sd_listen_fds = pos 2; strerror = [] }

abbrev pub socket_arguments : List Value
socket_arguments = plain (string (codes "/run/q.sock")) ∷ function (lua_function 0) ∷ []

abbrev pub systemd_arguments : List Value
systemd_arguments = light_user_data systemd_magic ∷ function (lua_function 1) ∷ []

-- A socket with the default size, and those of systemd with a smaller one.
abbrev pub sample_script : List Call
sample_script =
    sets (codes "log_server") (plain (string (codes "192.0.2.1")))
    ∷ listens sample_system socket_arguments false
    ∷ sets (codes "max_size") (plain (number 4096))
    ∷ listens sample_system systemd_arguments false
    ∷ []

abbrev pub sample_environment : Environment
sample_environment = record {
  is_directory = λ path. true;
  script =
      λ file. if same_text file default_command_line.config_path then some sample_script else none;
  to_socket_address = λ v port. some (codes "192.0.2.1:5479");
  connects = λ address. true;
  watchdog = true;
}

abbrev pub sample_listeners : List Listener
sample_listeners =
    record { fd = 4; max_size = 4096; handler = lua_function 1 }
    ∷ record { fd = 3; max_size = 4096; handler = lua_function 1 }
    ∷ record { fd = 9; max_size = 16777216; handler = lua_function 0 }
    ∷ []

-- What the script leaves, and what one call of it leaves.
abbrev pub after_script : Instance
after_script = record (new_instance sample_platform sample_environment) {
  listeners = sample_listeners;
  lua_state = set_global (codes "max_size") (plain (number 4096)) (
      set_global (codes "log_server") (plain (string (codes "192.0.2.1")))
        (new_instance sample_platform sample_environment).lua_state);
}

abbrev pub with_socket : Instance
with_socket =
    add_listener 9 16777216 (lua_function 0) (new_instance sample_platform sample_environment)

-- The process when it reaches its event loop.
abbrev pub sample_process : Process
sample_process = record {
  instance_of =
      setup_runtime_state sample_platform
        (record after_script { log_socket = some (codes "192.0.2.1:5479") });
  directory = codes "/";
}

pub sample_start :
    start sample_platform sample_environment (codes "/root") default_command_line
    ≡ completed sample_process
unfolding start run_script
sample_start = refl
