-- ===== src/LuaMail/Actions/Bounds.antt =====
-- The actions of exec() and exec_raw() (src/LMail.cxx) and the arrays of Relay/Spawn.
use qrelay.Common.{
  ℕ, suc, ◌+◌, ◌≤◌, ◌<◌, ◌≡◌, ◌≢◌, inl, inr, refl, subst, List, [], ◌∷◌, ◌++◌, Option, none, some,
  arith, Bytes, codes, length, length-append, leb, Bool-cases, Option-cases,
}
use qrelay.Action.{Action, ActionType, exec, exec_raw, make_action, max_exec, max_env}
use qrelay.Relay.Spawn.{System, spawn}
use qrelay.Relay.Spawn.Bounds.{spawn-ne-none}
use qrelay.Lua.{
  LuaValue, nil, other, string, number, table, LuaTable, no_entry, entry, returned, and_then,
  LuaLibrary, and_then_cases, returned_injective, same_text, check_string,
}
use qrelay.LuaMail.Actions.{
  add_env, collect_exec_env, add_option, add_entry, collect_exec_options, collect_arguments,
  collect_exec, split_last, new_exec_action, new_exec_raw_action, new_program, collect_split,
  set_timeout,
}

-- An action that is being made for a program of the type, with so many arguments.
record IsProgram (type : ActionType) (n : ℕ) (a : Action) : Type 0 where
  pub typed : a.type ≡ type
  pub exec_fits : length a.exec ≤ max_exec
  pub env_fits : length a.env ≤ max_env
  pub arguments : n ≤ length a.exec

module _ (type : ActionType) (n : ℕ) where
  add_env-IsProgram :
      (a b : Action) (name value : LuaValue)
      → IsProgram type n a
      → add_env a name value ≡ returned b
      → IsProgram type n b
  unfolding add_env
  add_env-IsProgram a b (string s) (string v) p h =
      ground (arith, length-append a.env ((s ++ b'=' ∷ v) ∷ []))
  add_env-IsProgram a b nil value p h = ground arith
  add_env-IsProgram a b other value p h = ground arith
  add_env-IsProgram a b (number k) value p h = ground arith
  add_env-IsProgram a b (table k) value p h = ground arith
  add_env-IsProgram a b (string s) nil p h = ground arith
  add_env-IsProgram a b (string s) other p h = ground arith
  add_env-IsProgram a b (string s) (number k) p h = ground arith
  add_env-IsProgram a b (string s) (table k) p h = ground arith

  env-IsProgram :
      (a b : Action) (t : LuaTable)
      → IsProgram type n a
      → collect_exec_env a t ≡ returned b
      → IsProgram type n b
  unfolding collect_exec_env
  env-IsProgram a b no_entry p h = subst (IsProgram type n) (returned_injective h) p
  env-IsProgram a b (entry name value more) p h =
      let (c, first, rest) = and_then_cases (add_env a name value) _ b h in
      env-IsProgram c b more (add_env-IsProgram a c name value p first) rest

  module _ (l : LuaLibrary) where
    timeout-IsProgram :
        (a b : Action) (seconds : ℕ)
        → IsProgram type n a
        → set_timeout l a seconds ≡ returned b
        → IsProgram type n b
    timeout-IsProgram a b seconds p h = ground arith

    option-IsProgram :
        (a b : Action) (value : LuaValue) (key : Bytes)
        → IsProgram type n a
        → add_option l a value key ≡ returned b
        → IsProgram type n b
    unfolding add_option
    option-IsProgram a b (table t) key p h = elim (Bool-cases (same_text key (codes "env"))) [
      | inl env ↦
          let made : collect_exec_env a t ≡ returned b = ground arith in env-IsProgram a b t p made
      | inr not_env ↦ absurd (ground arith)
    ]
    option-IsProgram a b (number k) key p h =
        let made : set_timeout l a k ≡ returned b = ground arith in timeout-IsProgram a b k p made
    option-IsProgram a b (string s) key p h = elim (Option-cases (l.read_number s)) [
      | inl none_read ↦ absurd (ground arith)
      | inr (k, read) ↦
          let made : set_timeout l a k ≡ returned b = ground arith in timeout-IsProgram a b k p made
    ]
    option-IsProgram a b nil key p h = absurd (ground arith)
    option-IsProgram a b other key p h = absurd (ground arith)

    entry-IsProgram :
        (a b : Action) (value key : LuaValue)
        → IsProgram type n a
        → add_entry l a value key ≡ returned b
        → IsProgram type n b
    unfolding add_entry
    entry-IsProgram a b value (string k) p h = option-IsProgram a b value k p h
    entry-IsProgram a b value nil p h = absurd (ground arith)
    entry-IsProgram a b value other p h = absurd (ground arith)
    entry-IsProgram a b value (number k) p h = absurd (ground arith)
    entry-IsProgram a b value (table t) p h = absurd (ground arith)

    options-IsProgram :
        (a b : Action) (t : LuaTable)
        → IsProgram type n a
        → collect_exec_options l a t ≡ returned b
        → IsProgram type n b
    unfolding collect_exec_options
    options-IsProgram a b no_entry p h = subst (IsProgram type n) (returned_injective h) p
    options-IsProgram a b (entry key value more) p h =
        let (c, first, rest) =
          and_then_cases (add_entry l a value key) (λ c. collect_exec_options l c more) b h in
        options-IsProgram c b more (entry-IsProgram a c value key p first) rest

module _ (type : ActionType) (l : LuaLibrary) where
  arguments-IsProgram :
      (values : List LuaValue) (n i : ℕ) (a b : Action)
      → IsProgram type n a
      → collect_arguments l a i values ≡ returned b
      → IsProgram type (n + length values) b
  unfolding collect_arguments
  arguments-IsProgram [] n i a b p h =
      subst (IsProgram type (n + 0)) (returned_injective h) (record {
        typed = p.typed;
        exec_fits = p.exec_fits;
        env_fits = p.env_fits;
        arguments = omega (arith, p.arguments);
      })
  arguments-IsProgram (value ∷ more) n i a b p h =
      elim (Bool-cases (leb max_exec (length a.exec))) [
        | inl full ↦ absurd (ground arith)
        | inr room ↦
            let fewer : length a.exec < max_exec = ground arith in
            let added : and_then (check_string l i value)
                  (λ s. collect_arguments l (record a { exec = a.exec ++ s ∷ [] }) (i + 1) more)
                ≡ returned b =
              ground arith in
            let (s, checked, rest) =
              and_then_cases (check_string l i value)
                (λ s. collect_arguments l (record a { exec = a.exec ++ s ∷ [] }) (i + 1) more) b
                added in
            let count : suc n + length more ≡ n + length (value ∷ more) = omega arith in
            subst (λ k. IsProgram type k b) count
              (arguments-IsProgram more (suc n) (i + 1) (record a { exec = a.exec ++ s ∷ [] }) b
                (record {
                  typed = p.typed;
                  exec_fits = omega (arith, length-append a.exec (s ∷ []));
                  env_fits = p.env_fits;
                  arguments = omega (arith, length-append a.exec (s ∷ []), p.arguments);
                })
                rest)
      ]

  split-IsProgram :
      (front : List LuaValue) (last : Option LuaTable) (a b : Action)
      → IsProgram type 0 a
      → collect_split l a (front, last) ≡ returned b
      → IsProgram type (0 + length front) b
  split-IsProgram front none a b p h = arguments-IsProgram front 0 2 a b p h
  split-IsProgram front (some t) a b p h =
      let (c, first, rest) =
        and_then_cases (collect_exec_options l a t) (λ c. collect_arguments l c 2 front) b h in
      arguments-IsProgram front 0 2 c b (options-IsProgram type 0 l a c t p first) rest

  made-IsProgram : IsProgram type 0 (record make_action { type = type })
  made-IsProgram = record {
    typed = refl;
    exec_fits = omega arith;
    env_fits = omega arith;
    arguments = omega arith;
  }

  weaken : (n : ℕ) (b : Action) → 1 ≤ n → IsProgram type n b → IsProgram type 1 b
  weaken n b some_arguments p = record {
    typed = p.typed;
    exec_fits = p.exec_fits;
    env_fits = p.env_fits;
    arguments = omega (arith, p.arguments);
  }

  new-IsProgram :
      (args : List LuaValue) (b : Action)
      → new_program l type args ≡ returned b
      → IsProgram type 1 b
  unfolding collect_exec
  new-IsProgram [] b h = cc
  new-IsProgram (value ∷ []) b h =
      arguments-IsProgram (value ∷ []) 0 2 (record make_action { type = type }) b made-IsProgram h
  new-IsProgram (value ∷ next ∷ more) b h = weaken _ b (omega arith) (
      split-IsProgram (value ∷ (split_last (next ∷ more)).0) (split_last (next ∷ more)).1
        (record make_action { type = type }) b made-IsProgram h)

-- What exec() returns is an EXEC action with one to 32 arguments and at most 32 environment
-- variables, and starting it writes only inside the arrays, whatever the system does.
pub new_exec_action_fits :
    (l : LuaLibrary) (args : List LuaValue) (a : Action) (sys : System)
    → new_exec_action l args ≡ returned a
    → (a.type ≡ exec)
      × (1 ≤ length a.exec)
      × (length a.exec ≤ max_exec)
      × (length a.env ≤ max_env)
      × (spawn sys a ≢ none)
unfolding new_exec_action
new_exec_action_fits l args a sys h =
    let p = new-IsProgram exec l args a h in
    (p.typed, p.arguments, p.exec_fits, p.env_fits, spawn-ne-none sys a p.exec_fits p.env_fits)

-- The same of exec_raw().
pub new_exec_raw_action_fits :
    (l : LuaLibrary) (args : List LuaValue) (a : Action) (sys : System)
    → new_exec_raw_action l args ≡ returned a
    → (a.type ≡ exec_raw)
      × (1 ≤ length a.exec)
      × (length a.exec ≤ max_exec)
      × (length a.env ≤ max_env)
      × (spawn sys a ≢ none)
unfolding new_exec_raw_action
new_exec_raw_action_fits l args a sys h =
    let p = new-IsProgram exec_raw l args a h in
    (p.typed, p.arguments, p.exec_fits, p.env_fits, spawn-ne-none sys a p.exec_fits p.env_fits)
