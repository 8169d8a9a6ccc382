-- ===== src/LuaMail/Actions.antt =====
-- src/LMail.cxx: the methods that make an action. A state of the Lua stack that does not hold the
-- arguments is left out: the action is made on the way and is what the method returns.
pub mod Bounds
pub mod Strings
pub mod Decision
use qrelay.Common.{
  ℕ, zero, suc, ◌+◌, Bool, true, false, ◌&&◌, ◌||◌, not, List, [], ◌∷◌, ◌++◌, Option, none, some,
  Bytes, codes, leb, if◌then◌else◌, length,
}
use qrelay.Action.{
  Action, ActionType, discard, reject, connect, exec, exec_raw, make_action, max_exec, max_env,
}
use qrelay.Lua.{
  LuaValue, nil, other, string, number, table, LuaTable, no_entry, entry, LuaError, error,
  arg_error, current_exception, Result, raised, returned, and_then, LuaLibrary, same_text,
  check_string, if_string, if_table, if_number,
}

-- "Environment name is not a string" and so on: what an absent value raises.
abbrev expect : {A : Type 0} → Bytes → Option A → Result A
expect message none = raised (error message)
expect message (some a) = returned a

-- One entry of the env table.
add_env : Action → LuaValue → LuaValue → Result Action
add_env action name value =
    if leb max_env (length action.env)
    then raised (error (codes "Too many environment variables"))
    else and_then (expect (codes "Environment name is not a string") (if_string name)) λ n.
      and_then (expect (codes "Environment value is not a string") (if_string value))
        λ v. returned (record action { env = action.env ++ (n ++ b'=' ∷ v) ∷ [] })

-- `CollectExecEnv`.
unfoldable pub collect_exec_env : Action → LuaTable → Result Action
unfolding add_env
collect_exec_env action no_entry = returned action
collect_exec_env action (entry name value more) =
    and_then (add_env action name value) λ a. collect_exec_env a more

module _ (l : LuaLibrary) where
  abbrev set_timeout : Action → ℕ → Result Action
  set_timeout action seconds =
      if not (l.is_normal seconds)
        || l.less_or_equal seconds (l.of_natural 0)
        || l.less (l.of_natural 3600) seconds
      then raised (error (codes "Bad timeout value"))
      else returned (record action { timeout = l.duration_cast seconds })

  -- One entry of the options, whose key is a string.
  add_option : Action → LuaValue → Bytes → Result Action
  unfolding collect_exec_env
  add_option action value key =
      if same_text key (codes "env")
      then and_then (expect (codes "Env is not a table") (if_table value)) (collect_exec_env action)
      else if same_text key (codes "timeout")
      then and_then (expect (codes "Timeout is not a number") (if_number l value))
          (set_timeout action)
      else raised (error (codes "Unknown option"))

  add_entry : Action → LuaValue → LuaValue → Result Action
  unfolding add_option
  add_entry action value key =
      and_then (expect (codes "Option key is not a string") (if_string key))
        (add_option action value)

  -- `CollectExecOptions`.
  unfoldable pub collect_exec_options : Action → LuaTable → Result Action
  unfolding add_entry
  collect_exec_options action no_entry = returned action
  collect_exec_options action (entry key value more) =
      and_then (add_entry action value key) λ a. collect_exec_options a more

  -- The loop of `CollectExec` over the arguments, from the index on.
  collect_arguments : Action → ℕ → List LuaValue → Result Action
  collect_arguments action i [] = returned action
  collect_arguments action i (value ∷ more) =
      if leb max_exec (length action.exec)
      then raised (arg_error i (codes "Too many arguments"))
      else and_then (check_string l i value)
          λ s. collect_arguments (record action { exec = action.exec ++ s ∷ [] }) (i + 1) more

-- The arguments but for the last, and the last if it is a table.
abbrev split_last : List LuaValue → List LuaValue × Option LuaTable
split_last [] = ([], none)
split_last (value ∷ []) = elim (if_table value) [
  | none ↦ (value ∷ [], none)
  | some t ↦ ([], some t)
]
split_last (value ∷ next ∷ more) =
    let (front, last) = split_last (next ∷ more) in (value ∷ front, last)

module _ (l : LuaLibrary) where
  abbrev with_options : Action → Option LuaTable → Result Action
  with_options action none = returned action
  with_options action (some t) = collect_exec_options l action t

  abbrev collect_split : Action → List LuaValue × Option LuaTable → Result Action
  collect_split action (front, last) =
      and_then (with_options action last) λ a. collect_arguments l a 2 front

  -- `CollectExec`: only behind a first argument may a table be the options.
  unfoldable pub collect_exec : Action → List LuaValue → Result Action
  unfolding collect_exec_options collect_arguments
  collect_exec action [] = returned action
  collect_exec action (value ∷ []) = collect_arguments l action 2 (value ∷ [])
  collect_exec action (value ∷ next ∷ more) =
      collect_split action (split_last (value ∷ next ∷ more))

  abbrev new_program : ActionType → List LuaValue → Result Action
  new_program type [] = raised (error (codes "Not enough parameters"))
  new_program type (value ∷ more) = collect_exec (record make_action { type = type }) (value ∷ more)

  -- `NewExecAction`.
  unfoldable pub new_exec_action : List LuaValue → Result Action
  unfolding collect_exec
  new_exec_action args = new_program exec args

  -- `NewExecRawAction`.
  unfoldable pub new_exec_raw_action : List LuaValue → Result Action
  unfolding collect_exec
  new_exec_raw_action args = new_program exec_raw args

  abbrev connect_to : Option Bytes → Result Action
  connect_to none = raised current_exception
  connect_to (some address) = returned (record make_action { type = connect; address = address })

  -- `NewConnectAction`, with QMQP's port.
  unfoldable pub new_connect_action : List LuaValue → Result Action
  new_connect_action [] = raised (error (codes "Invalid parameters"))
  new_connect_action (value ∷ []) = connect_to (l.to_socket_address value 628)
  new_connect_action (value ∷ next ∷ more) = raised (error (codes "Invalid parameters"))

-- `NewDiscardAction`.
unfoldable pub new_discard_action : List LuaValue → Result Action
new_discard_action [] = returned (record make_action { type = discard })
new_discard_action (value ∷ more) = raised (error (codes "Invalid parameters"))

-- `NewRejectAction`.
unfoldable pub new_reject_action : List LuaValue → Result Action
new_reject_action [] = returned (record make_action { type = reject })
new_reject_action (value ∷ more) = raised (error (codes "Invalid parameters"))
