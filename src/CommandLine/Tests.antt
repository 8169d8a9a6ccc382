-- ===== src/CommandLine/Tests.antt =====
-- Command lines for src/CommandLine.cxx.
use qrelay.Common.{◌≡◌, ◌⊎◌, refl, List, Bytes, codes, [], ◌∷◌}
use qrelay.CommandLine.{CommandLine, parse_command_line}
use qrelay.CommandLine.Options.{IsCommandLine, usage, parse_command_line_cases}
use qrelay.Exception.{completed}

abbrev with_option : List Bytes
with_option = codes "cm4all-qrelay" ∷ codes "--config" ∷ codes "/srv/mail.lua" ∷ []

config_option :
    parse_command_line with_option ≡ completed (record { config_path = codes "/srv/mail.lua" })
unfolding parse_command_line
config_option = refl

wrong_option :
    parse_command_line (codes "cm4all-qrelay" ∷ codes "--conf" ∷ codes "/srv/mail.lua" ∷ []) ≡ usage
unfolding parse_command_line
wrong_option = refl

no_program : parse_command_line [] ≡ usage
unfolding parse_command_line
no_program = refl

parse_command_line_cases_example :
    ((c : CommandLine) × IsCommandLine with_option c
      × (parse_command_line with_option ≡ completed c))
    ⊎ (((c : CommandLine) → ¬ IsCommandLine with_option c)
        × (parse_command_line with_option ≡ usage))
parse_command_line_cases_example = parse_command_line_cases with_option
