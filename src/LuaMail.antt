-- ===== src/LuaMail.antt =====
-- src/LMail.cxx: the mail as the Lua handler has it. The arguments of a method are those behind the
-- object itself, so the first of them has the index 2.
pub mod Actions
pub mod Returned
pub mod Kept
pub mod Edits
pub mod ReadBack
pub mod Script
pub mod Relayed
mod Tests
use qrelay.Common.{
  c_string, ℕ, suc, ◌+◌, ◌%◌, ◌^◌, Bool, true, false, ◌&&◌, ◌||◌, not, List, [], ◌∷◌, ◌++◌, Option,
  none, some, Bytes, codes, leb, ◌==◌, if◌then◌else◌, ℤ,
}
use qrelay.Libcommon.{Address}
use qrelay.MutableMail
use qrelay.MutableMail.{MutableMail}
use qrelay.Connection.{Cred}
use qrelay.Lua.{
  LuaValue, nil, other, string, number, table, LuaTable, no_entry, entry, LuaError, error,
  arg_error, current_exception, Result, raised, returned, and_then, LuaLibrary, same_text,
  check_string,
}

-- `auto_close` says whether the pointer is set; `cached_cgroup` is the cgroup in the fenv.
pub record IncomingMail : Type 0 where
  pub mail : MutableMail
  pub auto_close : Bool
  pub peer : Option Cred
  pub n_headers : ℕ
  pub cached_cgroup : Option Bytes

abbrev pub max_headers : ℕ
max_headers = 16

-- `lua_isnil`.
abbrev is_nil : LuaValue → Bool
is_nil nil = true
is_nil _ = false

-- The constructor.
abbrev pub make_incoming_mail : MutableMail → Option Cred → IncomingMail
make_incoming_mail src peer = record {
  mail = src;
  auto_close = true;
  peer = peer;
  n_headers = 0;
  cached_cgroup = none;
}

-- `IsStale`.
abbrev pub is_stale : IncomingMail → Bool
is_stale m = not m.auto_close

-- `CheckStale`, and what follows it.
abbrev unless_stale : {A : Type 0} → IncomingMail → Result A → Result A
unless_stale m rest = if is_stale m then raised (error (codes "Stale object")) else rest

-- `IncomingMail::Close`.
unfoldable pub close : IncomingMail → IncomingMail
unfolding MutableMail.free
close m = record m { auto_close = false; mail = MutableMail.free m.mail }

-- `IsValidHeaderNameChar` and `IsValidHeaderValueChar`.
abbrev pub is_valid_header_name_char : ℕ → Bool
is_valid_header_name_char ch = leb 33 ch && leb ch 126 && not (ch == b':')

abbrev pub is_valid_header_value_char : ℕ → Bool
is_valid_header_value_char ch = leb b' ' ch && leb ch 126

-- What `Index` pushes: a method, a value, or nothing.
pub data Pushed : Type 0 where
  nothing : Pushed
  method text cgroup_info : Bytes → Pushed
  array : LuaTable → Pushed
  integer : ℕ → Pushed

abbrev is_method : Bytes → Bool
is_method name =
    same_text name (codes "insert_header")
    || same_text name (codes "connect")
    || same_text name (codes "discard")
    || same_text name (codes "reject")
    || same_text name (codes "exec")
    || same_text name (codes "exec_raw")

module _ (l : LuaLibrary) where
  -- `IsValidHeaderName` and `IsValidHeaderValue`.
  abbrev pub is_valid_header_name : Bytes → Bool
  is_valid_header_name s = l.check_chars_non_empty s is_valid_header_name_char

  abbrev pub is_valid_header_value : Bytes → Bool
  is_valid_header_value s = l.check_chars s is_valid_header_value_char

  -- Behind the checks of the arguments.
  abbrev insert_checked : IncomingMail → Bytes → Bytes → Result IncomingMail
  insert_checked m name value = unless_stale m (
      if leb max_headers m.n_headers
      then raised (error (codes "Too many headers"))
      else returned (record m {
        n_headers = (m.n_headers + 1) % 2 ^ 32;
        mail = MutableMail.insert_header m.mail name value;
      }))

  abbrev check_value : IncomingMail → Bytes → Bytes → Result IncomingMail
  check_value m name value =
      if not (is_valid_header_value value)
      then raised (arg_error 2 (codes "Illegal header value"))
      else insert_checked m name value

  abbrev check_name : IncomingMail → LuaValue → Bytes → Result IncomingMail
  check_name m value name =
      if not (is_valid_header_name name)
      then raised (arg_error 2 (codes "Illegal header name"))
      else and_then (check_string l 3 value) (check_value m name)

  -- `InsertHeader`.
  unfoldable pub insert_header : IncomingMail → List LuaValue → Result IncomingMail
  unfolding MutableMail.insert_header
  insert_header m (name ∷ value ∷ []) = and_then (check_string l 2 name) (check_name m value)
  insert_header m [] = raised (error (codes "Invalid parameters"))
  insert_header m (a ∷ []) = raised (error (codes "Invalid parameters"))
  insert_header m (a ∷ b ∷ c ∷ more) = raised (error (codes "Invalid parameters"))

  -- The loop of `PushArray`, from the index `i` on.
  abbrev push_from : ℕ → List Bytes → LuaTable
  push_from i [] = no_entry
  push_from i (value ∷ src) = entry (number (l.of_natural i)) (string value) (push_from (i + 1) src)

  -- `PushArray`.
  unfoldable pub push_array : List Bytes → LuaTable
  push_array src = push_from 1 src

  -- An attribute of the peer's credentials.
  abbrev credential : IncomingMail → (Cred → ℕ) → IncomingMail × Pushed
  credential m get = elim m.peer [ none ↦ (m, nothing) | some cred ↦ (m, integer (get cred)) ]

  -- The cgroup attribute: the path that `GetCgroupPath` returns, or its exception.
  abbrev new_cgroup : IncomingMail → Option Bytes → Result (IncomingMail × Pushed)
  new_cgroup m none = raised current_exception
  new_cgroup m (some []) = returned (m, nothing)
  new_cgroup m (some (c ∷ path)) =
      returned (record m { cached_cgroup = some (c ∷ path) }, cgroup_info (c ∷ path))

  abbrev cgroup : IncomingMail → Option Bytes → Option Bytes → Result (IncomingMail × Pushed)
  cgroup m path (some info) = returned (m, cgroup_info info)
  cgroup m path none = new_cgroup m path

  -- The attributes, of which only the cgroup is ever in the cache.
  abbrev attribute : IncomingMail → Option Bytes → Bytes → Result (IncomingMail × Pushed)
  attribute m path name =
      if is_method name
      then returned (m, method name)
      else if same_text name (codes "sender")
      then returned (m, text m.mail.sender)
      else if same_text name (codes "recipients")
      then returned (m, array (push_array m.mail.recipients))
      else if same_text name (codes "pid")
      then returned (credential m (λ cred. cred.pid))
      else if same_text name (codes "uid")
      then returned (credential m (λ cred. cred.uid))
      else if same_text name (codes "gid")
      then returned (credential m (λ cred. cred.gid))
      else if same_text name (codes "cgroup")
      then cgroup m path m.cached_cgroup
      else raised (error (codes "Unknown attribute"))

  abbrev index_checked : IncomingMail → Option Bytes → Bytes → Result (IncomingMail × Pushed)
  index_checked m path name = unless_stale m (attribute m path (c_string name))

  -- `IncomingMail::Index`; the second argument is what `GetCgroupPath` would do.
  unfoldable pub index :
      IncomingMail → Option Bytes → List LuaValue → Result (IncomingMail × Pushed)
  index m path (name ∷ []) = and_then (check_string l 2 name) (index_checked m path)
  index m path [] = raised (error (codes "Invalid parameters"))
  index m path (a ∷ b ∷ more) = raised (error (codes "Invalid parameters"))

  module _ (address : Address) where
    set_checked_sender : IncomingMail → Bytes → Result IncomingMail
    unfolding MutableMail.set_sender
    set_checked_sender m new_value =
        if not (address.verify new_value)
        then raised (arg_error 3 (codes "Malformed email address"))
        else returned (record m { mail = MutableMail.set_sender m.mail new_value })

    abbrev with_account : IncomingMail → Bytes → IncomingMail
    with_account m account = record m { mail = record m.mail { account = account } }

    abbrev set_checked_account : IncomingMail → Bytes → Result IncomingMail
    set_checked_account m [] = raised (arg_error 3 (codes "Empty string not allowed"))
    set_checked_account m (c ∷ s) = returned (with_account m (c ∷ s))

    set_account : IncomingMail → LuaValue → Result IncomingMail
    set_account m value =
        if is_nil value
        then returned (with_account m [])
        else and_then (check_string l 3 value) (set_checked_account m)

    set_attribute : IncomingMail → LuaValue → Bytes → Result IncomingMail
    unfolding set_checked_sender set_account
    set_attribute m value name =
        if same_text (c_string name) (codes "sender")
        then and_then (check_string l 3 value) (set_checked_sender m)
        else if same_text (c_string name) (codes "account")
        then set_account m value
        else raised (error (codes "Cannot change this attribute"))

    -- `IncomingMail::NewIndex`.
    unfoldable pub new_index : IncomingMail → List LuaValue → Result IncomingMail
    unfolding set_attribute
    new_index m (name ∷ value ∷ []) =
        unless_stale m (and_then (check_string l 2 name) (set_attribute m value))
    new_index m [] = raised (error (codes "Invalid parameters"))
    new_index m (a ∷ []) = raised (error (codes "Invalid parameters"))
    new_index m (a ∷ b ∷ c ∷ more) = raised (error (codes "Invalid parameters"))
