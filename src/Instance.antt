-- ===== src/Instance.antt =====
-- src/Instance.hxx and src/Instance.cxx: the process with its listeners. What is logged is kept in
-- the state.
pub mod Listeners
use qrelay.Common.{
  ℕ, zero, suc, ◌+◌, ℤ, pos, negsuc, Bool, true, false, List, [], ◌∷◌, ◌++◌, Option, none, some,
  Bytes, codes, if◌then◌else◌, ◌==◌, is_some, decimal,
}
use qrelay.Lua.Globals.{Globals, Value, Function, is_nil}
use qrelay.Resolver.{sock_stream}
use qrelay.Exception.{Outcome, runtime_error, library_error, thrown, completed}
use qrelay.Connection.{Connection, Cred, make_connection}

-- A `QmqpRelayListener`: its socket, and what its connections get.
pub record Listener : Type 0 where
  pub fd : ℕ
  pub max_size : ℕ
  pub handler : Function

-- `log_socket` is the address that it is connected to; `watched` are the events that are enabled,
-- `broken` is set by `EventLoop::Break`, and `reloads` counts the calls of the Lua function.
pub record Instance : Type 0 where
  pub listeners : List Listener
  pub log_socket : Option Bytes
  pub lua_state : Globals
  pub shutdown_listener : Bool
  pub sighup_event : Bool
  pub zombie_reaper : Bool
  pub systemd_watchdog : Bool
  pub broken : Bool
  pub reloads : ℕ
  pub messages : List Bytes

-- The constructor: the members of libcommon, of which the reaper watches from the beginning and
-- the watchdog if the system asks for it, and the two events that it enables.
abbrev pub make_instance : Globals → Bool → Instance
make_instance globals watchdog = record {
  listeners = [];
  log_socket = none;
  lua_state = globals;
  shutdown_listener = true;
  sighup_event = true;
  zombie_reaper = true;
  systemd_watchdog = watchdog;
  broken = false;
  reloads = 0;
  messages = [];
}

-- `AddListener` with a socket.
abbrev pub add_listener : ℕ → ℕ → Function → Instance → Instance
add_listener fd max_size handler i = record i {
  listeners = record { fd = fd; max_size = max_size; handler = handler } ∷ i.listeners;
}

pub record SocketConfig : Type 0 where
  pub bind_address : Bytes
  pub listen : ℕ
  pub mode : ℕ
  pub pass_cred : Bool
  pub socktype : ℕ

-- `MakeListener` up to `SocketConfig::Create`; the mode is 0666.
abbrev pub make_listener : Bytes → SocketConfig
make_listener address = record {
  bind_address = address;
  listen = 64;
  mode = 438;
  pass_cred = true;
  socktype = sock_stream;
}

-- What the system answers: `SocketConfig::Create` makes a socket or throws; `sd_listen_fds` gives
-- the number of sockets, or an error with its text.
pub record System : Type 0 where
  pub create : SocketConfig → Option ℕ
  pub sd_listen_fds : ℤ
  pub strerror : Bytes

with_socket : Option ℕ → ℕ → Function → Instance → Outcome Instance
with_socket none max_size handler i = thrown library_error
with_socket (some fd) max_size handler i = completed (add_listener fd max_size handler i)

-- `AddListener` with an address.
unfoldable pub add_address_listener : System → Bytes → ℕ → Function → Instance → Outcome Instance
unfolding with_socket
add_address_listener system address max_size handler i =
    with_socket (system.create (make_listener address)) max_size handler i

-- `SD_LISTEN_FDS_START`.
abbrev pub sd_listen_fds_start : ℕ
sd_listen_fds_start = 3

-- The loop over the sockets from the `k`th on, of which `n` are left.
unfoldable pub add_systemd_sockets : ℕ → ℕ → ℕ → Function → Instance → Instance
add_systemd_sockets zero k max_size handler i = i
add_systemd_sockets (suc n) k max_size handler i =
    add_systemd_sockets n (k + 1) max_size handler
      (add_listener (sd_listen_fds_start + k) max_size handler i)

-- One line of the logger.
abbrev pub logger : Bytes → Instance → Instance
logger message i = record i { messages = i.messages ++ message ∷ [] }

-- `AddSystemdListener` behind `sd_listen_fds`.
add_listen_fds : ℤ → Bytes → ℕ → Function → Instance → Instance
unfolding add_systemd_sockets
add_listen_fds (negsuc e) strerror max_size handler i =
    logger (codes "sd_listen_fds() failed: " ++ strerror) i
add_listen_fds (pos n) strerror max_size handler i =
    if n == 0
    then logger (codes "No systemd socket") i
    else add_systemd_sockets n 0 max_size handler i

-- `AddSystemdListener`.
unfoldable pub add_systemd_listener : System → ℕ → Function → Instance → Instance
unfolding add_listen_fds
add_systemd_listener system max_size handler i =
    add_listen_fds system.sd_listen_fds system.strerror max_size handler i

abbrev is_empty : List Listener → Bool
is_empty [] = true
is_empty (l ∷ listeners) = false

-- `Check`.
unfoldable pub check : Instance → Outcome Instance
check i =
    if is_empty i.listeners
    then thrown (runtime_error (codes "No QMQP listeners configured"))
    else completed i

-- `CreateConnectDatagramSocket` with the address, if there is one.
log_to : Option Bytes → (Bytes → Bool) → Instance → Outcome Instance
log_to none connects i = thrown library_error
log_to (some address) connects i =
    if connects address
    then completed (record i { log_socket = some address })
    else thrown library_error

-- `SetupLogSocket`, with `Lua::ToSocketAddress` for the port of the log protocol, which gives
-- nothing if it throws, and whether the socket can be made and connected.
unfoldable pub setup_log_socket :
    (Value → Option Bytes) → (Bytes → Bool) → Instance → Outcome Instance
unfolding log_to
setup_log_socket to_socket_address connects i =
    let log_server = i.lua_state (codes "log_server") in
    if is_nil log_server then completed i else log_to (to_socket_address log_server) connects i

-- `OnShutdown`.
unfoldable pub on_shutdown : Instance → Instance
on_shutdown i = record i {
  shutdown_listener = false;
  sighup_event = false;
  zombie_reaper = false;
  systemd_watchdog = false;
  broken = true;
}

-- `OnReload`.
unfoldable pub on_reload : Instance → Instance
on_reload i = record i { reloads = i.reloads + 1 }

-- `MakeLoggerDomain` (src/Connection.cxx).
abbrev pub make_logger_domain : Option Cred → Bytes
make_logger_domain none = codes "connection"
make_logger_domain (some cred) =
    codes "pid=" ++ (decimal cred.pid ++ (codes " uid=" ++ decimal cred.uid))

-- A connection with what its `NetstringServer`, its Lua handler and its logger were made with.
pub record Accepted : Type 0 where
  pub connection : Connection
  pub max_size : ℕ
  pub handler : Function
  pub domain : Bytes

-- The `QmqpRelayConnection` that a listener makes for a client (src/Listener.hxx).
abbrev pub accept : Instance → Listener → Option Cred → Accepted
accept i l cred = record {
  connection = make_connection cred (is_some i.log_socket);
  max_size = l.max_size;
  handler = l.handler;
  domain = make_logger_domain cred;
}
