-- ===== src/Relay/Spawn.antt =====
-- What `ExecRelay::Start` (src/ExecRelay.cxx) and `RawExecRelay::Start` (src/RawExecRelay.cxx) have
-- in common: the pipes, the argument and environment arrays on the stack, and pidfd_spawn().
pub mod Bounds
mod Tests
use qrelay.Common.{
  c_string, ℕ, zero, suc, ◌+◌, Bool, true, false, ◌||◌, not, List, [], ◌∷◌, ◌++◌, Option, none,
  some, Bytes, ◌==◌, if◌then◌else◌, ◌>>=◌,
}
use qrelay.Action.{Action, max_exec, max_env}

-- An element of `char *argv[]`: not yet written, a string, or nullptr.
pub data Slot : Type 0 where
  junk null : Slot
  arg : Bytes → Slot

abbrev pub junk_slots : ℕ → List Slot
junk_slots zero = []
junk_slots (suc n) = junk ∷ junk_slots n

abbrev prepend : Slot → Option (List Slot) → Option (List Slot)
prepend s none = none
prepend s (some slots) = some (s ∷ slots)

-- `slots[n] = s`; a write behind the end of the array is `none`.
store : List Slot → ℕ → Slot → Option (List Slot)
store [] n s = none
store (x ∷ slots) zero s = some (s ∷ slots)
store (x ∷ slots) (suc n) s = prepend x (store slots n s)

-- The loop `argv[n++] = i.c_str()`, by which a string ends at its first null byte, and `argv[n] = nullptr`.
fill : List Slot → ℕ → List Bytes → Option (List Slot)
unfolding store
fill slots n [] = store slots n null
fill slots n (i ∷ is) = store slots n (arg (c_string i)) >>= λ written. fill written (suc n) is

-- What the system does: whether each CreatePipe() succeeds, and the result of pidfd_spawn().
pub record System : Type 0 where
  pub stdin_pipe : Bool
  pub stdout_pipe : Bool
  pub spawn_error : ℕ

-- An exception, or a child process with its arguments and its environment.
pub data Spawned : Type 0 where
  threw : Spawned
  running : List Slot → List Slot → Spawned

-- `none` is a write out of bounds.
unfoldable pub spawn : System → Action → Option Spawned
unfolding fill
spawn sys action = if not sys.stdin_pipe || not sys.stdout_pipe then some threw else do
  argv ← fill (junk_slots (suc max_exec)) 0 action.exec
  env ← fill (junk_slots (suc max_env)) 0 action.env
  if sys.spawn_error == 0 then some (running argv env) else some threw
