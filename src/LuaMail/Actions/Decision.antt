-- ===== src/LuaMail/Actions/Decision.antt =====
-- What the Lua handler can decide (src/LMail.cxx): the actions that the methods return.
use qrelay.Common.{◌≡◌, ◌≢◌, sym, ap, ◌∙◌, false, List, [], ◌∷◌, arith}
use qrelay.Action.{Action, ActionType, undefined, discard, reject, connect}
use qrelay.Relay.Spawn.{System}
use qrelay.Lua.{LuaValue, returned, returned_injective, LuaLibrary}
use qrelay.LuaMail.Actions.{
  new_exec_action, new_exec_raw_action, new_connect_action, new_discard_action, new_reject_action,
}
use qrelay.LuaMail.Actions.Bounds.{new_exec_action_fits, new_exec_raw_action_fits}

-- What a method of the mail can return as an action.
pub data Decision (l : LuaLibrary) (a : Action) : Type 0 where
  executes : (args : List LuaValue) → new_exec_action l args ≡ returned a → Decision l a
  executes_raw : (args : List LuaValue) → new_exec_raw_action l args ≡ returned a → Decision l a
  connects : (args : List LuaValue) → new_connect_action l args ≡ returned a → Decision l a
  discards : (args : List LuaValue) → new_discard_action args ≡ returned a → Decision l a
  rejects : (args : List LuaValue) → new_reject_action args ≡ returned a → Decision l a

connect_defined :
    (l : LuaLibrary) (args : List LuaValue) (a : Action)
    → new_connect_action l args ≡ returned a
    → a.type ≡ connect
unfolding new_connect_action
connect_defined l [] a h = cc
connect_defined l (value ∷ []) a h = ground arith
connect_defined l (value ∷ next ∷ more) a h = cc

discard_defined :
    (args : List LuaValue) (a : Action) → new_discard_action args ≡ returned a → a.type ≡ discard
unfolding new_discard_action
discard_defined [] a h = ap (λ (b : Action). b.type) (sym (returned_injective h))
discard_defined (value ∷ more) a h = cc

reject_defined :
    (args : List LuaValue) (a : Action) → new_reject_action args ≡ returned a → a.type ≡ reject
unfolding new_reject_action
reject_defined [] a h = ap (λ (b : Action). b.type) (sym (returned_injective h))
reject_defined (value ∷ more) a h = cc

abbrev no_system : System
no_system = record { stdin_pipe = false; stdout_pipe = false; spawn_error = 0 }

not_undefined :
    {type : ActionType} → (a : Action) → a.type ≡ type → type ≢ undefined → a.type ≢ undefined
not_undefined a e u h = u (sym e ∙ h)

-- No method of the mail returns an action of type UNDEFINED, which `Do` does not handle.
pub made_action_defined : (l : LuaLibrary) (a : Action) → Decision l a → a.type ≢ undefined
made_action_defined l a (executes args h) =
    not_undefined a (new_exec_action_fits l args a no_system h).0 (λ e. cc)
made_action_defined l a (executes_raw args h) =
    not_undefined a (new_exec_raw_action_fits l args a no_system h).0 (λ e. cc)
made_action_defined l a (connects args h) = not_undefined a (connect_defined l args a h) (λ e. cc)
made_action_defined l a (discards args h) = not_undefined a (discard_defined args a h) (λ e. cc)
made_action_defined l a (rejects args h) = not_undefined a (reject_defined args a h) (λ e. cc)
