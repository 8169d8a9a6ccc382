-- ===== src/Common/CString.antt =====
-- What a `const char *` to a text refers to.
use mathlib.Core.Bool.{Bool, true, false}
use mathlib.Core.Option.{Option, none, some}
use mathlib.Core.Path.{◌≡◌}
use mathlib.Core.List.{[], ◌∷◌}
use qrelay.Common.Strings.{Bytes}
use qrelay.Common.Tests.{◌==◌, if◌then◌else◌}

abbrev pub c_string : Bytes → Bytes
c_string [] = []
c_string (c ∷ s) = let more = c_string s in if c == 0 then [] else c ∷ more

-- What stands behind a test that a result has passed.
pub checked_some {ℓ} :
    {A : Type ℓ} (b : Bool) (o : Option A) {x : A} → (if b then o else none) ≡ some x → o ≡ some x
checked_some true o h = h
checked_some false o h = cc
