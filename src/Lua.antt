-- ===== src/Lua.antt =====
-- What src/LMail.cxx takes from Lua and its libcommon wrapper: values, errors, and the functions
-- that check an argument.
pub mod Globals
pub mod Text
pub mod Samples
use qrelay.Common.{
  ℕ, ◌≡◌, ◌≢◌, refl, ap, ℤ, Bool, true, false, ◌&&◌, [], ◌∷◌, Option, none, some, Bytes, All, ◌==◌,
  if◌then◌else◌,
}

-- A table is its entries in the order in which they are traversed; a number is its bits.
mutual
  pub data LuaValue : Type 0 where
    nil other : LuaValue
    string : Bytes → LuaValue
    number : ℕ → LuaValue
    table : LuaTable → LuaValue

  pub data LuaTable : Type 0 where
    no_entry : LuaTable
    entry : LuaValue → LuaValue → LuaTable → LuaTable

-- `luaL_error`, `luaL_argerror`, the type error of `luaL_checklstring`, and `Lua::RaiseCurrent`.
pub data LuaError : Type 0 where
  error : Bytes → LuaError
  arg_error : ℕ → Bytes → LuaError
  type_error : ℕ → LuaError
  current_exception : LuaError

pub data Result (A : Type 0) : Type 0 where
  raised : LuaError → Result A
  returned : A → Result A

-- What follows a call that returned.
abbrev pub and_then : {A B : Type 0} → Result A → (A → Result B) → Result B
and_then (raised e) f = raised e
and_then (returned a) f = f a

-- A call that returned after another.
pub and_then_cases :
    {A B : Type 0} (r : Result A) (f : A → Result B) (b : B)
    → and_then r f ≡ returned b
    → (a : A) × (r ≡ returned a) × (f a ≡ returned b)
and_then_cases (raised e) f b h = cc
and_then_cases (returned a) f b h = (a, refl, h)

pub returned_injective : {A : Type 0} {a b : A} → returned a ≡ returned b → a ≡ b
returned_injective {a = a} h = ap (λ r. value_of a r) h
  where
    value_of : {A : Type 0} → A → Result A → A
    value_of d (raised e) = d
    value_of d (returned a) = a

-- What the program takes from Lua's numbers, from net/SocketAddress.hxx and from
-- util/StringVerify.hxx. `none` for an address is an exception.
pub record LuaLibrary : Type 0 where
  pub print_number : ℕ → Bytes
  pub read_number : Bytes → Option ℕ
  pub is_normal : ℕ → Bool
  pub of_natural : ℕ → ℕ
  pub less : ℕ → ℕ → Bool
  pub less_or_equal : ℕ → ℕ → Bool
  pub duration_cast : ℕ → ℤ
  pub to_socket_address : LuaValue → ℕ → Option Bytes
  pub check_chars : Bytes → (ℕ → Bool) → Bool
  pub check_chars_non_empty : Bytes → (ℕ → Bool) → Bool

-- `CheckChars` tests all characters, `CheckCharsNonEmpty` also that there is one.
pub record LuaLibraryLaws (l : LuaLibrary) : Type 0 where
  pub all_checked : (s : Bytes) (f : ℕ → Bool) → l.check_chars s f ≡ true → All (λ c. f c ≡ true) s
  pub all_checked_non_empty :
      (s : Bytes) (f : ℕ → Bool)
      → l.check_chars_non_empty s f ≡ true
      → (s ≢ []) × All (λ c. f c ≡ true) s

-- Whether two texts are the same.
abbrev pub same_text : Bytes → Bytes → Bool
same_text [] [] = true
same_text [] (d ∷ t) = false
same_text (c ∷ s) [] = false
same_text (c ∷ s) (d ∷ t) = c == d && same_text s t

-- `lua_type(L, i) == LUA_TSTRING`, with `ToStringView`.
abbrev pub if_string : LuaValue → Option Bytes
if_string (string s) = some s
if_string nil = none
if_string other = none
if_string (number n) = none
if_string (table t) = none

abbrev pub if_table : LuaValue → Option LuaTable
if_table (table t) = some t
if_table nil = none
if_table other = none
if_table (number n) = none
if_table (string s) = none

module _ (l : LuaLibrary) where
  -- `lua_isnumber`, with `lua_tonumber`.
  abbrev pub if_number : LuaValue → Option ℕ
  if_number (number n) = some n
  if_number (string s) = l.read_number s
  if_number nil = none
  if_number other = none
  if_number (table t) = none

  -- `Lua::CheckStringView`, and `luaL_checkstring` but for its end: numbers are converted.
  abbrev pub check_string : ℕ → LuaValue → Result Bytes
  check_string i (string s) = returned s
  check_string i (number n) = returned (l.print_number n)
  check_string i nil = raised (type_error i)
  check_string i other = raised (type_error i)
  check_string i (table t) = raised (type_error i)
