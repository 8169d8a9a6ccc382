-- ===== src/Main/Load.antt =====
-- src/Main.cxx: how the configuration file is found and run.
pub mod Opened
use qrelay.Common.{
  ℕ, Bool, false, List, [], ◌∷◌, ◌++◌, Option, none, some, Bytes, if◌then◌else◌, ◌==◌, codes,
}
use qrelay.Lua.Globals.{Value}
use qrelay.Exception.{Outcome, library_error, thrown, completed, on_completed}
use qrelay.Instance.{Instance}
use qrelay.Main.{Platform, Call, run_script}

-- What the process finds: the directories, the scripts in its files, and whether the addresses of
-- log servers can be read and reached. `watchdog` says whether systemd asks for its events.
pub record Environment : Type 0 where
  pub is_directory : Bytes → Bool
  pub script : Bytes → Option (List Call)
  pub to_socket_address : Value → ℕ → Option Bytes
  pub connects : Bytes → Bool
  pub watchdog : Bool

abbrev is_absolute : Bytes → Bool
is_absolute [] = false
is_absolute (c ∷ path) = c == b'/'

-- The file that a path refers to in a directory.
abbrev pub resolve_path : Bytes → Bytes → Bytes
resolve_path directory path = if is_absolute path then path else directory ++ b'/' ∷ path

abbrev before_slash : ℕ → Option Bytes → Option Bytes
before_slash c none = if c == b'/' then some [] else none
before_slash c (some t) = some (c ∷ t)

-- What stands in front of the last slash, which `strrchr` finds.
abbrev before_last_slash : Bytes → Option Bytes
before_last_slash [] = none
before_last_slash (c ∷ s) = before_slash c (before_last_slash s)

abbrev unless_root : Option Bytes → Option Bytes
unless_root none = none
unless_root (some []) = none
unless_root (some (c ∷ parent)) = some (c ∷ parent)

-- The parent in `ChdirContainingDirectory`, if it does not return before.
unfoldable pub containing_directory : Bytes → Option Bytes
containing_directory path = unless_root (before_last_slash path)

-- A process in its working directory.
pub record Process : Type 0 where
  pub instance_of : Instance
  pub directory : Bytes

module _ (env : Environment) where
  -- `chdir`, which has to succeed.
  unfoldable pub change_directory : Bytes → Bytes → Outcome Bytes
  change_directory directory path =
      let target = resolve_path directory path in
      if env.is_directory target then completed target else thrown library_error

  change_to : Bytes → Option Bytes → Outcome Bytes
  unfolding change_directory
  change_to directory none = completed directory
  change_to directory (some parent) = change_directory directory parent

  -- `ChdirContainingDirectory`.
  unfoldable pub chdir_containing_directory : Bytes → Bytes → Outcome Bytes
  unfolding change_to containing_directory
  chdir_containing_directory directory path = change_to directory (containing_directory path)

  module _ (p : Platform) where
    run_loaded : Instance → Option (List Call) → Outcome Instance
    run_loaded i none = thrown library_error
    run_loaded i (some calls) = run_script p i calls

    -- `LoadConfigFile`; `Lua::RunFile` throws if there is no such script.
    unfoldable pub load_config_file : Process → Bytes → Outcome Process
    unfolding chdir_containing_directory run_loaded change_directory
    load_config_file process path =
        on_completed (chdir_containing_directory process.directory path) (λ directory.
          on_completed (run_loaded process.instance_of (env.script (resolve_path directory path)))
            (λ i.
              on_completed (change_directory directory (codes "/"))
                (λ root. completed (record { instance_of = i; directory = root }))))
