-- ===== src/Service/Tests.antt =====
-- A mail through a whole process: its configuration is that of Main/Samples, its script inserts a
-- header and sets the sender.
use qrelay.Common.{
  inl, true, refl, List, [], ◌∷◌, Option, some, Bytes, codes, arith, mem-cons_self, pos, ◌≡◌,
}
use qrelay.Libcommon.Samples.{
  sample_text, sample_text-TextLaws, sample_address, sample_generator,
  sample_generator-GeneratorLaws, sample_strip, sample_strip-StripLaws, sample_truncate,
}
use qrelay.Netstring.{parse_netstring}
use qrelay.Qmqp
use qrelay.Qmqp.{QmqpMail, success, no_mail}
use qrelay.Action.{Action, make_action, connect}
use qrelay.Connection.{Cred, make_connection}
use qrelay.CommandLine.{default_command_line}
use qrelay.Instance.{Listener}
use qrelay.Lua.{string}
use qrelay.Lua.Globals.{lua_function}
use qrelay.Lua.Samples.{sample_lua, sample_lua-LuaLibraryLaws}
use qrelay.LuaMail.{insert_header, new_index}
use qrelay.LuaMail.Script.{ScriptCall, inserts, assigns}
use qrelay.LuaMail.Relayed.{IsRelayed}
use qrelay.Main.Samples.{
  sample_platform, sample_platform-PlatformLaws, sample_environment, sample_process, sample_start,
}
use qrelay.Main.Run.{hangs_up, event_loop}
use qrelay.Service.{mail-IsRelayed}

abbrev payload : Bytes
payload = codes "6: hello,3:f@o,3:b@r,"

abbrev taken_mail : QmqpMail
taken_mail = record {
  message = codes " hello";
  tail = codes ",3:b@r,";
  sender = codes "f@o";
  recipients = codes "b@r" ∷ [];
}

taken : Qmqp.parse sample_text sample_address no_mail payload ≡ some (taken_mail, success)
unfolding Qmqp.parse parse_netstring
taken = refl

abbrev two_calls : List ScriptCall
two_calls =
    inserts (string (codes "A") ∷ string (codes "b") ∷ [])
    ∷ assigns (string (codes "sender") ∷ string (codes "x@y") ∷ [])
    ∷ []

abbrev connect_action : Action
connect_action = record make_action { type = connect; timeout = pos 1 }

-- The last of the listeners is the first in the list.
abbrev systemd_listener : Listener
systemd_listener = record { fd = 4; max_size = 4096; handler = lua_function 1 }

abbrev peer : Option Cred
peer = some (record { pid = 7; uid = 1000; gid = 1000 })

mail-IsRelayed_example :
    IsRelayed sample_lua sample_truncate sample_text sample_address sample_strip sample_generator 18
      []
      (make_connection peer true)
      payload
      taken_mail
      two_calls
      connect_action
unfolding insert_header new_index event_loop qrelay.Main.setup_runtime_state
    qrelay.Main.setup_config_state
mail-IsRelayed_example =
    mail-IsRelayed sample_platform sample_platform-PlatformLaws sample_lua-LuaLibraryLaws
      sample_environment sample_truncate sample_text sample_text-TextLaws sample_address
      sample_strip sample_strip-StripLaws sample_generator sample_generator-GeneratorLaws 18 []
      (codes "/root") default_command_line sample_process (hangs_up ∷ []) systemd_listener peer
      payload taken_mail two_calls connect_action sample_start mem-cons_self
      (omega arith, omega arith) (omega arith) taken (tt, (tt, tt)) (inl refl) (omega arith)
      (omega arith) (omega arith, tt)
