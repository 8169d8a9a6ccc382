-- ===== src/CommandLine/Options.antt =====
-- The command lines of src/CommandLine.cxx, and the parser against them.
use qrelay.Common.{
  ◌≡◌, ◌⊎◌, inl, inr, refl, sym, ap, ◌∙◌, List, [], ◌∷◌, Bytes, codes, Bool-cases, arith,
}
use qrelay.Lua.{same_text}
use qrelay.Lua.Text.{same_text-≡}
use qrelay.Exception.{Outcome, message, thrown, completed}
use qrelay.CommandLine.{CommandLine, default_command_line, parse_command_line}

-- `argv` is the program alone, or the program with one option and its path.
pub data IsCommandLine (argv : List Bytes) (c : CommandLine) : Type 0 where
  program_alone :
      (program : Bytes) → argv ≡ program ∷ [] → c ≡ default_command_line → IsCommandLine argv c
  with_config :
      (program path : Bytes)
      → argv ≡ program ∷ codes "--config" ∷ path ∷ []
      → c ≡ record { config_path = path }
      → IsCommandLine argv c

abbrev pub usage : Outcome CommandLine
usage = thrown (message (codes "Usage: cm4all-qrelay [--config PATH]"))

takes_command_line :
    (argv : List Bytes) (c : CommandLine)
    → IsCommandLine argv c
    → parse_command_line argv ≡ completed c
unfolding parse_command_line
takes_command_line argv c (program_alone program e d) =
    ap parse_command_line e ∙ ap completed (sym d)
takes_command_line argv c (with_config program path e d) =
    ap parse_command_line e ∙ ap completed (sym d)

-- A parser's result, where usage is thrown for what is no command line.
abbrev Parses : List Bytes → Outcome CommandLine → Type 0
Parses argv r =
    ((c : CommandLine) × IsCommandLine argv c × (r ≡ completed c))
    ⊎ (((c : CommandLine) → ¬ IsCommandLine argv c) × (r ≡ usage))

refuses_command_line :
    (argv : List Bytes) → parse_command_line argv ≡ usage → Parses argv (parse_command_line argv)
refuses_command_line argv h = inr ((λ c i. absurd (cc (takes_command_line argv c i, h))), h)

-- ParseCommandLine takes exactly the program alone, with the default path, and the program with
-- `--config` and a path, with that path. For any other list of arguments, also an empty one, it
-- throws the usage.
pub parse_command_line_cases :
    (argv : List Bytes)
    → ((c : CommandLine) × IsCommandLine argv c × (parse_command_line argv ≡ completed c))
      ⊎ (((c : CommandLine) → ¬ IsCommandLine argv c) × (parse_command_line argv ≡ usage))
unfolding parse_command_line
parse_command_line_cases [] = refuses_command_line [] refl
parse_command_line_cases (p ∷ []) = inl (default_command_line, program_alone p refl refl, refl)
parse_command_line_cases (p ∷ o ∷ []) = refuses_command_line (p ∷ o ∷ []) refl
parse_command_line_cases (p ∷ o ∷ f ∷ []) = elim (Bool-cases (same_text o (codes "--config"))) [
  | inl e ↦ inl (
    record { config_path = f },
    with_config p f (ap (λ (s : Bytes). p ∷ s ∷ f ∷ []) (same_text-≡ o (codes "--config") e)) refl,
    rw e,
  )
  | inr e ↦ refuses_command_line (p ∷ o ∷ f ∷ []) (rw e)
]
parse_command_line_cases (p ∷ o ∷ f ∷ g ∷ argv) =
    refuses_command_line (p ∷ o ∷ f ∷ g ∷ argv) (ground arith)
