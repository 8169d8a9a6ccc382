-- ===== src/Action.antt =====
-- src/Action.hxx: what the Lua handler decides to do with a mail.
use qrelay.Common.{
  ◌≡◌, ◌≢◌, ◌⊎◌, ◌∷◌, refl, ℕ, zero, suc, ◌≤◌, ℤ, pos, negsuc, Bool, true, false, List, [], Bytes,
  length,
}

pub data ActionType : Type 0 where
  undefined discard reject connect exec exec_raw : ActionType

abbrev pub max_exec : ℕ
max_exec = 32

abbrev pub max_env : ℕ
max_env = 32

-- An AllocatedSocketAddress is its bytes; a duration is its count of ticks.
pub record Action : Type 0 where
  pub type : ActionType
  pub address : Bytes
  pub exec : List Bytes
  pub env : List Bytes
  pub timeout : ℤ

-- A new Action.
abbrev pub make_action : Action
make_action = record { type = undefined; address = []; exec = []; env = []; timeout = negsuc 0 }

abbrev pub is_undefined : ActionType → Bool
is_undefined undefined = true
is_undefined _ = false

-- `action.timeout.count() > 0`.
abbrev pub is_positive : ℤ → Bool
is_positive (pos (suc n)) = true
is_positive (pos zero) = false
is_positive (negsuc n) = false

abbrev pub is_exec : ActionType → Bool
is_exec exec = true
is_exec _ = false

abbrev pub is_exec_raw : ActionType → Bool
is_exec_raw exec_raw = true
is_exec_raw _ = false

-- `!action.exec.empty()`.
abbrev pub names_program : List Bytes → Bool
names_program [] = false
names_program (s ∷ ss) = true

-- The types of action that run a program.
abbrev pub RunsProgram : ActionType → Type 0
RunsProgram type = (type ≡ exec) ⊎ (type ≡ exec_raw)

pub names_program_lem : (ss : List Bytes) → ss ≢ [] → names_program ss ≡ true
names_program_lem [] h = absurd (h refl)
names_program_lem (s ∷ ss) h = refl

-- The StaticVectors hold no more than they have room for, and a program is named where one is run.
pub record IsBounded (a : Action) : Type 0 where
  pub exec_fits : length a.exec ≤ max_exec
  pub env_fits : length a.env ≤ max_env
  pub named : RunsProgram a.type → a.exec ≢ []
