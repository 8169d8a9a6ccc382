-- ===== src/LuaMail/Actions/Strings.antt =====
-- exec() and exec_raw() (src/LMail.cxx) of strings only.
use qrelay.Common.{
  inl, inr, ℕ, ◌+◌, ◌≤◌, ◌≡◌, refl, ap, ◌∙◌, true, some, ◌-◌, false, List, [], ◌∷◌, ◌++◌, map,
  append_assoc, append-nil, none, arith, Bytes, length, length-append, leb,
}
use qrelay.Action.{Action, ActionType, exec, exec_raw, make_action, max_exec, max_env}
use qrelay.Lua.{string, returned, LuaLibrary}
use qrelay.Relay.Spawn.{System, spawn, running, null, junk_slots}
use qrelay.Relay.Spawn.Bounds.{c_arg, spawn_running}
use qrelay.LuaMail.Actions.{
  collect_arguments, collect_exec, collect_split, split_last, new_program, new_exec_action,
  new_exec_raw_action,
}

split_last-strings : (ss : List Bytes) → split_last (map string ss) ≡ (map string ss, none)
split_last-strings [] = refl
split_last-strings (s ∷ []) = refl
split_last-strings (s ∷ t ∷ more) = rw (split_last-strings (t ∷ more)) refl

module _ (l : LuaLibrary) where
  arguments-strings :
      (ss : List Bytes) (a : Action) (i : ℕ)
      → length a.exec + length ss ≤ max_exec
      → collect_arguments l a i (map string ss) ≡ returned (record a { exec = a.exec ++ ss })
  unfolding collect_arguments
  arguments-strings [] a i h = rw (append-nil a.exec) refl
  arguments-strings (s ∷ ss) a i h =
      let longer : length (a.exec ++ s ∷ []) + length ss ≤ max_exec =
        omega (arith, length-append a.exec (s ∷ [])) in
      let room : leb max_exec (length a.exec) ≡ false = ground arith in
      rw room (
        arguments-strings ss (record a { exec = a.exec ++ s ∷ [] }) (i + 1) longer
        ∙ ap (λ (e : List Bytes). returned (record a { exec = e }))
            (append_assoc a.exec (s ∷ []) ss))

  program-strings :
      (type : ActionType) (s : Bytes) (ss : List Bytes)
      → length (s ∷ ss) ≤ max_exec
      → new_program l type (map string (s ∷ ss))
        ≡ returned (record make_action { type = type; exec = s ∷ ss })
  unfolding collect_exec
  program-strings type s [] h =
      arguments-strings (s ∷ []) (record make_action { type = type }) 2 (omega arith)
  program-strings type s (t ∷ ss) h =
      ap (collect_split l (record make_action { type = type })) (split_last-strings (s ∷ t ∷ ss))
      ∙ arguments-strings (s ∷ t ∷ ss) (record make_action { type = type }) 2 (omega arith)

  -- The actions of one to 32 strings.
  exec_strings :
      (s : Bytes) (ss : List Bytes)
      → length (s ∷ ss) ≤ max_exec
      → (new_exec_action l (map string (s ∷ ss))
          ≡ returned (record make_action { type = exec; exec = s ∷ ss }))
        × (new_exec_raw_action l (map string (s ∷ ss))
            ≡ returned (record make_action { type = exec_raw; exec = s ∷ ss }))
  unfolding new_exec_action new_exec_raw_action
  exec_strings s ss h = (program-strings exec s ss h, program-strings exec_raw s ss h)

  -- exec() and exec_raw() take any one to 32 strings, and make actions with them in their order,
  -- no environment and no timeout; for either action, with both pipes and no error, the relay's
  -- child runs with those arguments, each up to its first null byte, and an empty environment,
  -- each array ended by a null pointer.
  pub exec_strings_run :
      (s : Bytes) (ss : List Bytes) (sys : System)
      → length (s ∷ ss) ≤ max_exec
      → sys.stdin_pipe ≡ true
      → sys.stdout_pipe ≡ true
      → sys.spawn_error ≡ 0
      → let a = record make_action { type = exec; exec = s ∷ ss } in
        let b = record make_action { type = exec_raw; exec = s ∷ ss } in
        let child =
          running
            (map c_arg (s ∷ ss) ++ null ∷ junk_slots (max_exec - length (s ∷ ss)))
            (null ∷ junk_slots max_env) in
        (new_exec_action l (map string (s ∷ ss)) ≡ returned a)
        × (new_exec_raw_action l (map string (s ∷ ss)) ≡ returned b)
        × (spawn sys a ≡ some child)
        × (spawn sys b ≡ some child)
  exec_strings_run s ss sys h i o e =
      let (by_exec, by_raw) = exec_strings s ss h in
      (
        by_exec,
        by_raw,
        (spawn_running sys (record make_action { type = exec; exec = s ∷ ss })
            (record { exec_fits = h; env_fits = omega arith; named = λ runs. λ n. cc }) (inl refl) i
            o e).1,
        (spawn_running sys (record make_action { type = exec_raw; exec = s ∷ ss })
            (record { exec_fits = h; env_fits = omega arith; named = λ runs. λ n. cc }) (inr refl) i
            o e).1,
      )
