-- ===== src/LuaMail/Script.antt =====
-- A script as a list of calls of IncomingMail's methods (src/LMail.cxx).
use qrelay.LuaMail.Returned.{insert_header-Inserted, new_index-Assigned}
use qrelay.LuaMail.Kept.{IsHeaderLine, IsKept, insert-IsKept, assign-IsKept, close-IsKept}
use qrelay.Common.{
  c_string, ◌≤◌, ◌≡◌, ◌≢◌, ◌⊎◌, inr, refl, true, List, [], ◌∷◌, Option, arith, Bytes, All, length,
}
use qrelay.Libcommon.{Address}
use qrelay.MutableMail
use qrelay.MutableMail.{MutableMail, header_line}
use qrelay.Connection.{Cred}
use qrelay.Lua.{
  LuaValue, Result, raised, returned, and_then, and_then_cases, LuaLibrary, LuaLibraryLaws,
  check_string,
}
use qrelay.LuaMail.{
  Pushed, index, index_checked, attribute, unless_stale, IncomingMail, max_headers,
  make_incoming_mail, is_stale, close, insert_header, check_name, check_value, new_index,
}

-- The methods that can change the object. A script that catches an error goes on with the object as
-- it was.
pub data ScriptCall : Type 0 where
  inserts assigns : List LuaValue → ScriptCall
  closes : ScriptCall

abbrev pub returned_or : IncomingMail → Result IncomingMail → IncomingMail
returned_or m (raised e) = m
returned_or m (returned q) = q

module _ (l : LuaLibrary) (address : Address) where
  abbrev pub after_call : IncomingMail → ScriptCall → IncomingMail
  after_call m (inserts args) = returned_or m (insert_header l m args)
  after_call m (assigns args) = returned_or m (new_index l address m args)
  after_call m closes = close m

  abbrev pub after_script : IncomingMail → List ScriptCall → IncomingMail
  after_script m [] = m
  after_script m (call ∷ calls) = after_script (after_call m call) calls

  returned_or-IsKept :
      (m : IncomingMail) (r : Result IncomingMail)
      → IsKept address m
      → ((q : IncomingMail) → r ≡ returned q → IsKept address q)
      → IsKept address (returned_or m r)
  returned_or-IsKept m (raised e) k f = k
  returned_or-IsKept m (returned q) k f = f q refl

  module _ (laws : LuaLibraryLaws l) where
    call-IsKept :
        (m : IncomingMail) (call : ScriptCall)
        → IsKept address m
        → IsKept address (after_call m call)
    call-IsKept m (inserts args) k =
        returned_or-IsKept m (insert_header l m args) k
          λ q h. insert-IsKept l laws address m q k (insert_header-Inserted l m q args h)
    call-IsKept m (assigns args) k =
        returned_or-IsKept m (new_index l address m args) k
          λ q h. assign-IsKept l laws address m q k (new_index-Assigned l address m q args h)
    call-IsKept m closes k = close-IsKept l laws address m k

    script-IsKept :
        (m : IncomingMail) (calls : List ScriptCall)
        → IsKept address m
        → IsKept address (after_script m calls)
    script-IsKept m [] k = k
    script-IsKept m (call ∷ calls) k =
        script-IsKept (after_call m call) calls (call-IsKept m call k)

    -- Whatever methods a script calls on a new object for a mail without headers and with a
    -- verified sender, the mail has at most 16 headers, each a line of a name and a value of
    -- printable characters, so that none brings in another line; and its sender is verified, or
    -- the object is closed.
    pub script_safe :
        (src : MutableMail) (peer : Option Cred) (calls : List ScriptCall)
        → src.headers ≡ []
        → address.verify src.sender ≡ true
        → let m = after_script (make_incoming_mail src peer) calls in
          (length m.mail.headers ≤ max_headers)
          × All IsHeaderLine m.mail.headers
          × ((is_stale m ≡ true) ⊎ (address.verify m.mail.sender ≡ true))
    script_safe src peer calls no_header good =
        let k = script-IsKept (make_incoming_mail src peer) calls (record {
          counted = rw no_header (omega arith);
          limited = omega arith;
          lines = rw no_header tt;
          good_sender = inr good;
        }) in
        (omega (arith, k.counted, k.limited), k.lines, k.good_sender)

  stale_insert :
      (m q : IncomingMail) (args : List LuaValue)
      → is_stale m ≡ true
      → insert_header l m args ≢ returned q
  unfolding insert_header
  stale_insert m q [] stale h = cc
  stale_insert m q (a ∷ []) stale h = cc
  stale_insert m q (a ∷ b ∷ c ∷ more) stale h = cc
  stale_insert m q (name ∷ value ∷ []) stale h =
      let (n, string_name, rest) =
        and_then_cases (check_string l 2 name) (check_name l m value) q h in
      let valued : and_then (check_string l 3 value) (check_value l m n) ≡ returned q =
        ground arith in
      let (v, string_value, checked) =
        and_then_cases (check_string l 3 value) (check_value l m n) q valued in
      ground arith

  stale_unless :
      {A : Type 0} (m : IncomingMail) (r : Result A) (a : A)
      → is_stale m ≡ true
      → unless_stale m r ≢ returned a
  stale_unless m r a stale h = ground arith

  stale_index :
      (m : IncomingMail) (answer : IncomingMail × Pushed) (args : List LuaValue)
      (path : Option Bytes)
      → is_stale m ≡ true
      → index l m path args ≢ returned answer
  unfolding index
  stale_index m answer [] path stale h = cc
  stale_index m answer (a ∷ b ∷ more) path stale h = cc
  stale_index m answer (name ∷ []) path stale h =
      let (n, string_name, rest) =
        and_then_cases (check_string l 2 name) (index_checked l m path) answer h in
      stale_unless m (attribute l m path (c_string n)) answer stale rest

  stale_new_index :
      (m q : IncomingMail) (args : List LuaValue)
      → is_stale m ≡ true
      → new_index l address m args ≢ returned q
  unfolding new_index
  stale_new_index m q [] stale h = cc
  stale_new_index m q (a ∷ []) stale h = cc
  stale_new_index m q (name ∷ value ∷ []) stale h = ground arith
  stale_new_index m q (a ∷ b ∷ c ∷ more) stale h = cc

  -- A closed object has no sender and no headers, and insert_header, an assignment and an access
  -- return nothing, whatever the arguments: they raise an error.
  pub stale_raises :
      (m q : IncomingMail) (args : List LuaValue) (path : Option Bytes)
      (answer : IncomingMail × Pushed)
      → (insert_header l (close m) args ≢ returned q)
        × (new_index l address (close m) args ≢ returned q)
        × (index l (close m) path args ≢ returned answer)
        × ((close m).mail.sender ≡ [])
        × ((close m).mail.headers ≡ [])
  unfolding close MutableMail.free
  stale_raises m q args path answer = (
    stale_insert (close m) q args refl,
    stale_new_index (close m) q args refl,
    stale_index (close m) answer args path refl,
    refl,
    refl,
  )
