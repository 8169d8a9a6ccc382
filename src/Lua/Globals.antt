-- ===== src/Lua/Globals.antt =====
-- The global variables of the Lua state, as src/Main.cxx and src/LResolver.cxx use them: the values
-- that a configuration has besides those of Lua.antt, and `Lua::SetGlobal`.
use qrelay.Common.{
  ℕ, ℤ, pos, negsuc, Bool, true, false, Option, none, some, Bytes, ltb, if◌then◌else◌,
}
use qrelay.Lua.{
  LuaValue, LuaLibrary, nil, other, string, number, table, same_text, if_string, if_number,
}

-- `struct addrinfo`, as far as the hints set it.
pub record AddrInfo : Type 0 where
  pub ai_flags : ℕ
  pub ai_family : ℕ
  pub ai_socktype : ℕ

-- The functions that a configuration meets: its own ones by a number, `l_qmqp_listen`, and what
-- `Lua::PushResolveFunction` makes.
pub data Function : Type 0 where
  lua_function : ℕ → Function
  qmqp_listen : Function
  resolve : AddrInfo → ℕ → Function

pub data Value : Type 0 where
  plain : LuaValue → Value
  function : Function → Value
  light_user_data : ℕ → Value

abbrev pub Globals : Type 0
Globals = Bytes → Value

-- `Lua::SetGlobal`.
abbrev pub set_global : Bytes → Value → Globals → Globals
set_global name value globals = λ n. if same_text n name then value else globals n

-- `lua_isfunction`, with the function.
abbrev pub if_function : Value → Option Function
if_function (function f) = some f
if_function (plain v) = none
if_function (light_user_data p) = none

-- `lua_isnil`.
abbrev pub is_nil : Value → Bool
is_nil (plain nil) = true
is_nil (plain other) = false
is_nil (plain (string s)) = false
is_nil (plain (number n)) = false
is_nil (plain (table t)) = false
is_nil (function f) = false
is_nil (light_user_data p) = false

-- `lua_type(L, i) == LUA_TSTRING`, with `ToStringView`.
abbrev pub if_text : Value → Option Bytes
if_text (plain v) = if_string v
if_text (function f) = none
if_text (light_user_data p) = none

-- `lua_isnumber`, with the number.
abbrev pub if_numeric : LuaLibrary → Value → Option ℕ
if_numeric l (plain v) = if_number l v
if_numeric l (function f) = none
if_numeric l (light_user_data p) = none

-- `i < n` and `n < i` for an integer and a constant.
abbrev pub less_than : ℤ → ℕ → Bool
less_than (pos i) n = ltb i n
less_than (negsuc i) n = true

abbrev pub greater_than : ℤ → ℕ → Bool
greater_than (pos i) n = ltb n i
greater_than (negsuc i) n = false
