-- ===== src/Exception.antt =====
-- What the C++ code throws (src/CommandLine.cxx, src/Instance.cxx, src/Main.cxx) and what follows a
-- call that may throw.
use qrelay.Common.{◌≡◌, ◌≢◌, ◌⊎◌, inl, inr, refl, ap, Bytes}
use qrelay.Lua.{LuaError}

-- A text, a `std::runtime_error`, an error of Lua, and what a library function or a system call
-- reports.
pub data Exception : Type 0 where
  message : Bytes → Exception
  runtime_error : Bytes → Exception
  lua_error : LuaError → Exception
  library_error : Exception

pub data Outcome (A : Type 0) : Type 0 where
  thrown : Exception → Outcome A
  completed : A → Outcome A

-- What follows a call that did not throw.
abbrev pub on_completed : {A B : Type 0} → Outcome A → (A → Outcome B) → Outcome B
on_completed (thrown e) f = thrown e
on_completed (completed a) f = f a

-- A call that completed after another.
pub on_completed_cases :
    {A B : Type 0} (r : Outcome A) (f : A → Outcome B) (b : B)
    → on_completed r f ≡ completed b
    → (a : A) × (r ≡ completed a) × (f a ≡ completed b)
on_completed_cases (thrown e) f b h = cc
on_completed_cases (completed a) f b h = (a, refl, h)

pub completed_injective : {A : Type 0} {a b : A} → completed a ≡ completed b → a ≡ b
completed_injective {a = a} h = ap (λ r. value_of a r) h
  where
    value_of : {A : Type 0} → A → Outcome A → A
    value_of d (thrown e) = d
    value_of d (completed a) = a

pub Outcome-cases :
    {A : Type 0} (r : Outcome A)
    → ((e : Exception) × (r ≡ thrown e)) ⊎ ((a : A) × (r ≡ completed a))
Outcome-cases (thrown e) = inl (e, refl)
Outcome-cases (completed a) = inr (a, refl)

pub thrown-ne-completed : {A : Type 0} {e : Exception} {a : A} → thrown e ≢ completed a
thrown-ne-completed h = cc
