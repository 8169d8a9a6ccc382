-- ===== src/LuaMail/Tests.antt =====
-- Methods of IncomingMail (src/LMail.cxx): a script that adds a header, and one that runs a
-- program.
use qrelay.Common.{
  some, pos, ◌≡◌, ◌≢◌, ◌≤◌, ◌⊎◌, refl, true, false, List, [], ◌∷◌, none, arith, codes, length, All,
  map,
}
use qrelay.Libcommon.Samples.{sample_address}
use qrelay.Lua.Samples.{sample_lua, sample_lua-LuaLibraryLaws}
use qrelay.MutableMail.{MutableMail, make_mutable_mail}
use qrelay.Qmqp.{no_mail}
use qrelay.Action.{Action, make_action, discard, exec, exec_raw, max_exec, max_env}
use qrelay.Relay.Spawn.{System, spawn, running, arg, null, junk_slots}
use qrelay.Lua.{LuaValue, string, number, table, no_entry, entry, arg_error, raised, returned}
use qrelay.LuaMail.{
  IncomingMail, max_headers, make_incoming_mail, is_stale, insert_header, new_index, array,
  push_array, index, text,
}
use qrelay.LuaMail.ReadBack.{sender_read_back}
use qrelay.LuaMail.Kept.{IsHeaderLine}
use qrelay.LuaMail.Script.{ScriptCall, inserts, assigns, after_script, script_safe}
use qrelay.Connection.Handler.{Edit}
use qrelay.Connection.Handler.EndToEnd.{edit_all}
use qrelay.LuaMail.Edits.{IsVerifiedEdit, script_edits}
use qrelay.LuaMail.Actions.{new_exec_action, new_exec_raw_action, new_discard_action}
use qrelay.LuaMail.Actions.Bounds.{new_exec_action_fits}
use qrelay.LuaMail.Actions.Strings.{exec_strings_run}

abbrev lua_mail : MutableMail
lua_mail = record (make_mutable_mail []) { mail = record no_mail { sender = codes "f@o" } }

abbrev good_header : List LuaValue
good_header = string (codes "A") ∷ string (codes "b") ∷ []

abbrev two_line_header : List LuaValue
two_line_header = string (codes "A") ∷ string (b'b' ∷ 10 ∷ b'c' ∷ []) ∷ []

injection_raises :
    insert_header sample_lua (make_incoming_mail lua_mail none) two_line_header
    ≡ raised (arg_error 2 (codes "Illegal header value"))
unfolding insert_header
injection_raises = refl

abbrev sample_script : List ScriptCall
sample_script =
    inserts good_header
    ∷ inserts two_line_header
    ∷ assigns (string (codes "sender") ∷ string (codes "nobody") ∷ [])
    ∷ []

abbrev scripted : IncomingMail
scripted = after_script sample_lua sample_address (make_incoming_mail lua_mail none) sample_script

script_safe_example :
    (length scripted.mail.headers ≤ max_headers)
    × All IsHeaderLine scripted.mail.headers
    × ((is_stale scripted ≡ true) ⊎ (sample_address.verify scripted.mail.sender ≡ true))
script_safe_example =
    script_safe sample_lua sample_address sample_lua-LuaLibraryLaws lua_mail none sample_script refl
      refl

abbrev program_args : List LuaValue
program_args =
    string (codes "/bin/cat")
    ∷ table (
        entry (string (codes "env"))
          (table (entry (string (codes "A")) (string (codes "b")) no_entry))
          (entry (string (codes "timeout")) (number 5) no_entry))
    ∷ []

abbrev program_action : Action
program_action = record make_action {
  type = exec;
  exec = codes "/bin/cat" ∷ [];
  env = codes "A=b" ∷ [];
  timeout = pos 5;
}

program_made : new_exec_action sample_lua program_args ≡ returned program_action
unfolding new_exec_action
program_made = refl

abbrev working_system : System
working_system = record { stdin_pipe = true; stdout_pipe = true; spawn_error = 0 }

abbrev pipes_only : System
pipes_only = record { stdin_pipe = true; stdout_pipe = true; spawn_error = 2 }

new_exec_action_fits_example :
    (program_action.type ≡ exec)
    × (1 ≤ length program_action.exec)
    × (length program_action.exec ≤ max_exec)
    × (length program_action.env ≤ max_env)
    × (spawn pipes_only program_action ≢ none)
new_exec_action_fits_example =
    new_exec_action_fits sample_lua program_args program_action pipes_only program_made

exec_strings_run_example :
    (new_exec_action sample_lua (map string (codes "/bin/cat" ∷ codes "-" ∷ []))
      ≡ returned (record make_action { type = exec; exec = codes "/bin/cat" ∷ codes "-" ∷ [] }))
    × (new_exec_raw_action sample_lua (map string (codes "/bin/cat" ∷ codes "-" ∷ []))
        ≡ returned
            (record make_action { type = exec_raw; exec = codes "/bin/cat" ∷ codes "-" ∷ [] }))
    × (spawn working_system
          (record make_action { type = exec; exec = codes "/bin/cat" ∷ codes "-" ∷ [] })
        ≡ some (
            running
              (arg (codes "/bin/cat") ∷ arg (codes "-") ∷ null ∷ junk_slots 30)
              (null ∷ junk_slots 32)))
    × (spawn working_system
          (record make_action { type = exec_raw; exec = codes "/bin/cat" ∷ codes "-" ∷ [] })
        ≡ some (
            running
              (arg (codes "/bin/cat") ∷ arg (codes "-") ∷ null ∷ junk_slots 30)
              (null ∷ junk_slots 32)))
exec_strings_run_example =
    exec_strings_run sample_lua (codes "/bin/cat") (codes "-" ∷ []) working_system (omega arith)
      refl refl refl

discard_made : new_discard_action [] ≡ returned (record make_action { type = discard })
unfolding new_discard_action
discard_made = refl

script_edits_example :
    (es : List Edit) × All (IsVerifiedEdit sample_address) es
    × (scripted.mail ≡ edit_all (make_incoming_mail lua_mail none).mail es)
script_edits_example =
    script_edits sample_lua sample_address (make_incoming_mail lua_mail none) sample_script
      (tt, (tt, (tt, tt)))

sender_read_back_example :
    ((sample_address.verify (codes "x@y") ≡ true)
      × ((q : IncomingMail) × (new_index sample_lua sample_address
              (make_incoming_mail lua_mail none)
              (string (codes "sender") ∷ string (codes "x@y") ∷ [])
            ≡ returned q)
          × (index sample_lua q none (string (codes "sender") ∷ [])
              ≡ returned (q, text (codes "x@y")))
          × (index sample_lua q none (string (codes "recipients") ∷ [])
              ≡ returned (q, array (push_array sample_lua [])))))
    ⊎ ((sample_address.verify (codes "x@y") ≡ false)
        × (new_index sample_lua sample_address
              (make_incoming_mail lua_mail none)
              (string (codes "sender") ∷ string (codes "x@y") ∷ [])
            ≡ raised (arg_error 3 (codes "Malformed email address"))))
sender_read_back_example =
    sender_read_back sample_lua sample_address (make_incoming_mail lua_mail none) none (codes "x@y")
      refl
