-- ===== src/Main/Run/Start.antt =====
-- A start of the process (`Run` in src/Main.cxx) that reaches the event loop.
use qrelay.Common.{
  ◌≡◌, ◌≢◌, ◌⊎◌, inl, inr, refl, sym, ap, ◌∙◌, subst, true, false, List, [], Option, none, some,
  Bytes, codes, All, ◌*◌, arith,
}
use qrelay.Lua.{nil}
use qrelay.Lua.Globals.{Globals, Value, plain, is_nil}
use qrelay.Exception.{completed, on_completed_cases, completed_injective}
use qrelay.CommandLine.{CommandLine}
use qrelay.Instance.{Instance, Listener, make_instance, check, setup_log_socket}
use qrelay.Instance.Listeners.{check_cases, setup_log_socket_cases}
use qrelay.Main.{Platform, PlatformLaws, Call, setup_config_state, setup_runtime_state, run_script}
use qrelay.Main.Listen.{IsMaxSize}
use qrelay.Main.Bounds.{IsBounded, IsConfigured, run_script-IsConfigured}
use qrelay.Main.Load.{Environment, Process, load_config_file}
use qrelay.Main.Load.Opened.{IsOpened, load_config_file_cases}
use qrelay.Main.Run.{no_globals, start}

-- The names that a configuration has and a handler has not.
abbrev pub IsRuntime : Globals → Type 0
IsRuntime globals =
    (globals (codes "max_size") ≡ plain nil)
    × (globals (codes "qmqp_listen") ≡ plain nil)
    × (globals (codes "qmqp_resolve") ≡ plain nil)
    × (globals (codes "log_resolve") ≡ plain nil)
    × (globals (codes "control_resolve") ≡ plain nil)

module _ (p : Platform) (env : Environment) where
  abbrev pub new_instance : Instance
  new_instance = setup_config_state p (make_instance no_globals env.watchdog)

  -- No log socket without the variable `log_server`, and with it one that is connected to the
  -- address that it stands for.
  abbrev pub LogsTo : Value → Option Bytes → Type 0
  LogsTo log_server socket =
      ((is_nil log_server ≡ true) × (socket ≡ none))
      ⊎ ((address : Bytes) × (is_nil log_server ≡ false)
          × (env.to_socket_address log_server p.log_port ≡ some address)
          × (env.connects address ≡ true)
          × (socket ≡ some address))

  -- A process that a configuration script has set up, and that waits for events.
  pub record IsStarted (directory : Bytes) (cmdline : CommandLine) (q : Process) : Type 0 where
    pub file : Bytes
    pub calls : List Call
    pub configured : Instance
    pub opened : IsOpened directory cmdline.config_path file
    pub found : env.script file ≡ some calls
    pub ran : run_script p new_instance calls ≡ completed configured
    pub same_listeners : q.instance_of.listeners ≡ configured.listeners
    pub listening : q.instance_of.listeners ≢ []
    pub bounded : All IsBounded q.instance_of.listeners
    pub logging : LogsTo (configured.lua_state (codes "log_server")) q.instance_of.log_socket
    pub runtime : IsRuntime q.instance_of.lua_state
    pub running : q.instance_of.broken ≡ false
    pub at_root : q.directory ≡ codes "/"

  new_instance-IsConfigured : IsConfigured new_instance
  unfolding setup_config_state
  new_instance-IsConfigured = record { bounded = tt; not_logging = refl; not_broken = refl }

  setup_runtime_state-IsRuntime :
      PlatformLaws p → (i : Instance) → IsRuntime (setup_runtime_state p i).lua_state
  unfolding setup_runtime_state
  setup_runtime_state-IsRuntime laws i =
      (laws.keeps_max_size _, laws.keeps_qmqp_listen _, refl, refl, refl)

  setup_runtime_state_keeps :
      (i : Instance)
      → ((setup_runtime_state p i).listeners ≡ i.listeners)
        × ((setup_runtime_state p i).log_socket ≡ i.log_socket)
        × ((setup_runtime_state p i).broken ≡ i.broken)
  unfolding setup_runtime_state
  setup_runtime_state_keeps i = (refl, refl, refl)

  setup_log_socket-LogsTo :
      (i j : Instance)
      → i.log_socket ≡ none
      → setup_log_socket (λ v. env.to_socket_address v p.log_port) env.connects i ≡ completed j
      → LogsTo (i.lua_state (codes "log_server")) j.log_socket
        × (j.listeners ≡ i.listeners)
        × (j.broken ≡ i.broken)
  setup_log_socket-LogsTo i j none_yet h =
      elim (setup_log_socket_cases (λ v. env.to_socket_address v p.log_port) env.connects i j h) [
        | inl (no_server, same) ↦ (
          inl (no_server, ap (λ (k : Instance). k.log_socket) same ∙ none_yet),
          ap (λ (k : Instance). k.listeners) same,
          ap (λ (k : Instance). k.broken) same,
        )
        | inr (a, server, found, connected, same) ↦ (
          inr (a, server, found, connected, ap (λ (k : Instance). k.log_socket) same),
          ap (λ (k : Instance). k.listeners) same,
          ap (λ (k : Instance). k.broken) same,
        )
      ]

  configured-IsStarted :
      PlatformLaws p
      → (directory : Bytes) (cmdline : CommandLine) (loaded : Process) (i : Instance)
      → (file : Bytes) (calls : List Call) → IsOpened directory cmdline.config_path file
      → env.script file ≡ some calls
      → run_script p new_instance calls ≡ completed loaded.instance_of
      → loaded.directory ≡ codes "/"
      → loaded.instance_of.listeners ≢ []
      → setup_log_socket (λ v. env.to_socket_address v p.log_port) env.connects loaded.instance_of
        ≡ completed i
      → IsStarted directory cmdline (record loaded { instance_of = setup_runtime_state p i })
  configured-IsStarted laws directory cmdline loaded i file calls opened found ran root listening
        logs =
      let (log_to, listeners, broken) =
        setup_log_socket-LogsTo loaded.instance_of i configured.not_logging logs in
      let (same_l, same_s, same_b) = setup_runtime_state_keeps i in
      record {
        file = file;
        calls = calls;
        configured = loaded.instance_of;
        opened = opened;
        found = found;
        ran = ran;
        same_listeners = same_l ∙ listeners;
        listening = subst (λ (ls : List Listener). ls ≢ []) (sym (same_l ∙ listeners)) listening;
        bounded = subst (All IsBounded) (sym (same_l ∙ listeners)) configured.bounded;
        logging =
            subst (LogsTo (loaded.instance_of.lua_state (codes "log_server"))) (sym same_s) log_to;
        runtime = setup_runtime_state-IsRuntime laws i;
        running = same_b ∙ broken ∙ configured.not_broken;
        at_root = root;
      }
    where
      configured : IsConfigured loaded.instance_of
      configured =
          run_script-IsConfigured p calls new_instance loaded.instance_of ran
            new_instance-IsConfigured

  pub start-IsStarted :
      PlatformLaws p
      → (directory : Bytes) (cmdline : CommandLine) (q : Process)
      → start p env directory cmdline ≡ completed q
      → IsStarted directory cmdline q
  unfolding start
  start-IsStarted laws directory cmdline q h =
      let process : Process = record { instance_of = new_instance; directory = directory } in
      let (loaded, load, behind_load) =
        on_completed_cases (load_config_file env p process cmdline.config_path) _ q h in
      let (checked, check_ok, behind_check) =
        on_completed_cases (check loaded.instance_of) _ q behind_load in
      let (i, log_ok, done) =
        on_completed_cases
          (setup_log_socket (λ v. env.to_socket_address v p.log_port) env.connects checked) _ q
          behind_check in
      let (file, calls, opened, found, ran, root) =
        load_config_file_cases env p process loaded cmdline.config_path load in
      let (same, listening) = check_cases loaded.instance_of checked check_ok in
      let logs : setup_log_socket (λ v. env.to_socket_address v p.log_port) env.connects
            loaded.instance_of
          ≡ completed i =
        ap (setup_log_socket (λ v. env.to_socket_address v p.log_port) env.connects) (sym same)
        ∙ log_ok in
      subst (IsStarted directory cmdline) (completed_injective done) (
        configured-IsStarted laws directory cmdline loaded i file calls opened found ran root
          listening logs)

  -- Before a configuration sets it, `max_size` is the default, which qmqp_listen takes.
  pub default-IsMaxSize : PlatformLaws p → IsMaxSize p new_instance (16 * 1024 * 1024)
  unfolding setup_config_state
  default-IsMaxSize laws = record {
    bits = p.lua.of_natural (16 * 1024 * 1024);
    numeric = refl;
    integer = laws.to_integer-of_natural (16 * 1024 * 1024) (omega arith);
    large_enough = omega arith;
    small_enough = omega arith;
  }
