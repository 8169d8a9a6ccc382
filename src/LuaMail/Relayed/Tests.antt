-- ===== src/LuaMail/Relayed/Tests.antt =====
-- A mail whose script inserts a header and sets the sender (src/LMail.cxx, src/Connection.cxx).
use qrelay.Common.{◌≡◌, inl, refl, true, [], ◌∷◌, List, none, some, arith, Bytes, codes, ◌++◌, pos}
use qrelay.Libcommon.Samples.{
  sample_text, sample_text-TextLaws, sample_address, sample_generator,
  sample_generator-GeneratorLaws, sample_strip, sample_truncate,
}
use qrelay.Netstring.{parse_netstring}
use qrelay.Qmqp
use qrelay.Qmqp.{QmqpMail, success, no_mail}
use qrelay.MutableMail.{MutableMail}
use qrelay.Action.{Action, make_action, connect}
use qrelay.Connection.{make_connection}
use qrelay.Lua.{string}
use qrelay.Lua.Samples.{sample_lua, sample_lua-LuaLibraryLaws}
use qrelay.LuaMail.{insert_header, new_index}
use qrelay.LuaMail.Script.{ScriptCall, inserts, assigns}
use qrelay.LuaMail.Relayed.{scripted, IsRelayed, script-IsRelayed}

abbrev payload : Bytes
payload = codes "6: hello,3:f@o,3:b@r,"

abbrev taken_mail : QmqpMail
taken_mail = record {
  message = codes " hello";
  tail = codes ",3:b@r,";
  sender = codes "f@o";
  recipients = codes "b@r" ∷ [];
}

taken : Qmqp.parse sample_text sample_address no_mail payload ≡ some (taken_mail, success)
unfolding Qmqp.parse parse_netstring
taken = refl

abbrev two_calls : List ScriptCall
two_calls =
    inserts (string (codes "A") ∷ string (codes "b") ∷ [])
    ∷ assigns (string (codes "sender") ∷ string (codes "x@y") ∷ [])
    ∷ []

abbrev connect_action : Action
connect_action = record make_action { type = connect; timeout = pos 1 }

abbrev left : MutableMail
left =
    scripted sample_lua sample_truncate sample_text sample_address sample_strip sample_generator 18
      [] none payload taken_mail two_calls

left_lem : (left.sender ≡ codes "x@y") × (left.headers ≡ (codes "A: b" ++ 13 ∷ 10 ∷ []) ∷ [])
unfolding insert_header new_index
left_lem = (refl, refl)

script-IsRelayed_example :
    IsRelayed sample_lua sample_truncate sample_text sample_address sample_strip sample_generator 18
      []
      (make_connection none true)
      payload
      taken_mail
      two_calls
      connect_action
unfolding insert_header new_index
script-IsRelayed_example =
    script-IsRelayed sample_lua sample_lua-LuaLibraryLaws sample_truncate sample_text sample_address
      sample_strip sample_text-TextLaws sample_generator sample_generator-GeneratorLaws 18 [] none
      true payload taken_mail two_calls connect_action taken (tt, (tt, tt)) (inl refl) (omega arith)
      (omega arith) (omega arith)
