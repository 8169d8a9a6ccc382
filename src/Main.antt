-- ===== src/Main.antt =====
-- src/Main.cxx: `qmqp_listen`, the global variables of a configuration, and the scripts that use
-- them. A step that fails throws; the state that it leaves is not used behind it.
pub mod Listen
pub mod Bounds
pub mod Load
pub mod Run
pub mod Samples
mod Tests
use qrelay.Common.{
  ℕ, zero, suc, ◌≡◌, ◌<◌, ◌-◌, ◌*◌, ◌%◌, ◌^◌, ℤ, pos, negsuc, Bool, true, false, not, List, [], ◌∷◌,
  ◌++◌, Option, none, some, Bytes, codes, if◌then◌else◌, ◌==◌, length, size_mod,
}
use qrelay.Lua.{LuaLibrary, LuaError, error, arg_error, nil, number}
use qrelay.Lua.Globals.{
  Globals, Value, Function, plain, function, light_user_data, qmqp_listen, set_global, if_function,
  if_text, if_numeric, less_than, greater_than,
}
use qrelay.Resolver.{register_lua_resolver, unregister_lua_resolver}
use qrelay.Exception.{Exception, Outcome, runtime_error, lua_error, thrown, completed, on_completed}
use qrelay.Instance.{Instance, System, add_address_listener, add_systemd_listener}

-- The address of `systemd_magic`, and that of the instance, which is another one.
abbrev pub systemd_magic : ℕ
systemd_magic = 42

-- `IsSystemdMagic`.
abbrev pub is_systemd_magic : Value → Bool
is_systemd_magic (light_user_data p) = p == systemd_magic
is_systemd_magic (plain v) = false
is_systemd_magic (function f) = false

-- An integer as a `size_t`.
abbrev pub to_size : ℤ → ℕ
to_size (pos n) = n % size_mod
to_size (negsuc n) = size_mod - 1 - n % size_mod

-- `lua_tointeger` of a number, and what the libraries set: those of Lua and libcommon at the
-- beginning, and the classes of libcommon before the event loop. Then the ports of the protocols for
-- logging and control.
pub record Platform : Type 0 where
  pub lua : LuaLibrary
  pub to_integer : ℕ → ℤ
  pub open_libraries : Globals → Globals
  pub open_runtime_libraries : Globals → Globals
  pub log_port : ℕ
  pub control_port : ℕ

-- `lua_tointeger` of a number that was pushed as an integer; the classes do not use the two names.
pub record PlatformLaws (p : Platform) : Type 0 where
  pub to_integer-of_natural : (n : ℕ) → n < 2 ^ 31 → p.to_integer (p.lua.of_natural n) ≡ pos n
  pub keeps_max_size :
      (globals : Globals)
      → p.open_runtime_libraries globals (codes "max_size") ≡ globals (codes "max_size")
  pub keeps_qmqp_listen :
      (globals : Globals)
      → p.open_runtime_libraries globals (codes "qmqp_listen") ≡ globals (codes "qmqp_listen")

-- One argument of a call, which is only used if there are two.
abbrev argument : List Value → ℕ → Value
argument [] i = plain nil
argument (v ∷ arguments) zero = v
argument (v ∷ arguments) (suc i) = argument arguments i

-- What a script does that concerns the program: it sets a global variable, calls qmqp_listen,
-- in a protected call or not, or it ends with an error.
pub data Call : Type 0 where
  sets : Bytes → Value → Call
  listens : System → List Value → Bool → Call
  raises : LuaError → Call

-- What is left behind a call of qmqp_listen, in a protected call if `guarded`.
pub guard : Bool → Instance → Outcome Instance → Outcome Instance
guard guarded i (completed j) = completed j
guard guarded i (thrown e) = if guarded then completed i else thrown e

module _ (p : Platform) where
  integer_or_error : Bytes → Option ℕ → Outcome ℤ
  integer_or_error name none = thrown (runtime_error (b'`' ∷ name ++ codes "` must be a number"))
  integer_or_error name (some n) = completed (p.to_integer n)

  -- `GetGlobalInt`.
  unfoldable pub get_global_int : Globals → Bytes → Outcome ℤ
  unfolding integer_or_error
  get_global_int globals name = integer_or_error name (if_numeric p.lua (globals name))

  -- `l_qmqp_listen` behind its checks: the first argument is a string, or it is something else.
  listen_at : System → Instance → Value → ℤ → Function → Option Bytes → Outcome Instance
  unfolding add_address_listener add_systemd_listener
  listen_at system i v max_size handler (some address) =
      add_address_listener system address (to_size max_size) handler i
  listen_at system i v max_size handler none =
      if is_systemd_magic v
      then completed (add_systemd_listener system (to_size max_size) handler i)
      else thrown (lua_error (arg_error 1 (codes "path expected")))

  -- `l_qmqp_listen` with `max_size`.
  listen_sized : System → Instance → Value → Function → ℤ → Outcome Instance
  unfolding listen_at
  listen_sized system i v handler max_size =
      if less_than max_size 1024
      then thrown (runtime_error (codes "`max_size` is too small"))
      else if greater_than max_size (1024 * 1024 * 1024)
      then thrown (runtime_error (codes "`max_size` is too large"))
      else listen_at system i v max_size handler (if_text v)

  listen_with : System → Instance → Value → Option Function → Outcome Instance
  unfolding get_global_int listen_sized
  listen_with system i v none = thrown (lua_error (arg_error 2 (codes "function expected")))
  listen_with system i v (some handler) =
      on_completed (get_global_int i.lua_state (codes "max_size")) (listen_sized system i v handler)

  -- `l_qmqp_listen`. What is thrown becomes an error of Lua.
  unfoldable pub l_qmqp_listen : System → Instance → List Value → Outcome Instance
  unfolding listen_with
  l_qmqp_listen system i arguments =
      if not (length arguments == 2)
      then thrown (lua_error (error (codes "Invalid parameter count")))
      else listen_with system i (argument arguments 0) (if_function (argument arguments 1))

  -- `SetupConfigState`.
  unfoldable pub setup_config_state : Instance → Instance
  setup_config_state i =
      let resolvers =
        register_lua_resolver p.log_port p.control_port (p.open_libraries i.lua_state) in
      let sized =
        set_global (codes "max_size") (plain (number (p.lua.of_natural (16 * 1024 * 1024))))
          resolvers in
      let magic = set_global (codes "systemd") (light_user_data systemd_magic) sized in
      record i { lua_state = set_global (codes "qmqp_listen") (function qmqp_listen) magic }

  -- `SetupRuntimeState`; the classes are not global variables.
  unfoldable pub setup_runtime_state : Instance → Instance
  setup_runtime_state i =
      let sized = set_global (codes "max_size") (plain nil) i.lua_state in
      let without = set_global (codes "qmqp_listen") (plain nil) sized in
      record i { lua_state = unregister_lua_resolver (p.open_runtime_libraries without) }

  unfoldable pub run_call : Instance → Call → Outcome Instance
  unfolding l_qmqp_listen guard
  run_call i (sets name v) = completed (record i { lua_state = set_global name v i.lua_state })
  run_call i (listens system arguments guarded) = guard guarded i (l_qmqp_listen system i arguments)
  run_call i (raises e) = thrown (lua_error e)

  -- A whole script.
  unfoldable pub run_script : Instance → List Call → Outcome Instance
  unfolding run_call
  run_script i [] = completed i
  run_script i (call ∷ calls) = on_completed (run_call i call) (λ j. run_script j calls)
