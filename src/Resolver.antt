-- ===== src/Resolver.antt =====
-- src/LResolver.cxx: the functions by which a configuration resolves the name of a host.
use qrelay.Common.{ℕ, codes}
use qrelay.Lua.{nil}
use qrelay.Lua.Globals.{AddrInfo, Globals, plain, function, resolve, set_global}

-- AI_ADDRCONFIG, AF_UNSPEC, SOCK_STREAM and SOCK_DGRAM on Linux.
abbrev ai_addrconfig : ℕ
ai_addrconfig = 32

abbrev af_unspec : ℕ
af_unspec = 0

abbrev pub sock_stream : ℕ
sock_stream = 1

abbrev sock_dgram : ℕ
sock_dgram = 2

abbrev hints : AddrInfo
hints = record { ai_flags = ai_addrconfig; ai_family = af_unspec; ai_socktype = sock_stream }

abbrev dgram_hints : AddrInfo
dgram_hints = record { ai_flags = ai_addrconfig; ai_family = af_unspec; ai_socktype = sock_dgram }

-- `RegisterLuaResolver`; the ports are those of libcommon's log and control protocols.
abbrev pub register_lua_resolver : ℕ → ℕ → Globals → Globals
register_lua_resolver log_port control_port globals =
    let with_qmqp = set_global (codes "qmqp_resolve") (function (resolve hints 628)) globals in
    let with_log =
      set_global (codes "log_resolve") (function (resolve dgram_hints log_port)) with_qmqp in
    set_global (codes "control_resolve") (function (resolve dgram_hints control_port)) with_log

-- `UnregisterLuaResolver`.
abbrev pub unregister_lua_resolver : Globals → Globals
unregister_lua_resolver globals = set_global (codes "control_resolve") (plain nil) (
    set_global (codes "log_resolve") (plain nil)
      (set_global (codes "qmqp_resolve") (plain nil) globals))
