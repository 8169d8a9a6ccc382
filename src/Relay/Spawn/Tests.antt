-- ===== src/Relay/Spawn/Tests.antt =====
-- The start of a program with one argument (src/ExecRelay.cxx).
use qrelay.Common.{inl, ◌≡◌, ◌-◌, refl, true, [], ◌∷◌, ◌++◌, map, some, arith, codes, length}
use qrelay.Action.{Action, IsBounded, names_program, make_action, exec, max_exec, max_env}
use qrelay.Relay.Spawn.{null, junk_slots, System, running, spawn}
use qrelay.Relay.Spawn.Bounds.{c_arg, spawn_running}

abbrev cat_action : Action
cat_action = record make_action { type = exec; exec = codes "/bin/cat" ∷ codes "-" ∷ [] }

cat_action-IsBounded : IsBounded cat_action
cat_action-IsBounded = record {
  exec_fits = omega arith;
  env_fits = omega arith;
  named = λ runs. λ e. cc;
}

abbrev working_system : System
working_system = record { stdin_pipe = true; stdout_pipe = true; spawn_error = 0 }

spawn_running_example :
    (names_program cat_action.exec ≡ true)
    × (spawn working_system cat_action
        ≡ some (
            running
              (map c_arg cat_action.exec ++ null ∷ junk_slots (max_exec - length cat_action.exec))
              (map c_arg cat_action.env ++ null ∷ junk_slots (max_env - length cat_action.env))))
spawn_running_example =
    spawn_running working_system cat_action cat_action-IsBounded (inl refl) refl refl refl
