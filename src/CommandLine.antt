-- ===== src/CommandLine.antt =====
-- src/CommandLine.hxx and src/CommandLine.cxx: the command line.
pub mod Options
mod Tests
use qrelay.Common.{
  ℕ, zero, suc, Bool, ◌&&◌, not, List, [], ◌∷◌, Bytes, codes, if◌then◌else◌, ◌==◌, length,
}
use qrelay.Lua.{same_text}
use qrelay.Exception.{Exception, Outcome, message, thrown, completed}

pub record CommandLine : Type 0 where
  pub config_path : Bytes

abbrev pub default_command_line : CommandLine
default_command_line = record { config_path = codes "/etc/cm4all/qrelay/config.lua" }

-- `argv[i]`, which is only used inside of the array.
abbrev argument : List Bytes → ℕ → Bytes
argument [] i = []
argument (s ∷ argv) zero = s
argument (s ∷ argv) (suc i) = argument argv i

-- `ParseCommandLine`; `argc` is the length.
unfoldable pub parse_command_line : List Bytes → Outcome CommandLine
parse_command_line argv =
    if length argv == 3 && same_text (argument argv 1) (codes "--config")
    then completed (record default_command_line { config_path = argument argv 2 })
    else if not (length argv == 1)
    then thrown (message (codes "Usage: cm4all-qrelay [--config PATH]"))
    else completed default_command_line
