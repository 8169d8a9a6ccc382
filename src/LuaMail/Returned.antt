-- ===== src/LuaMail/Returned.antt =====
-- The methods of IncomingMail (src/LMail.cxx) that change it, where they return: the cases of what
-- they have done.
use qrelay.Common.{
  c_string, ◌+◌, ◌%◌, ◌^◌, ◌<◌, ◌≡◌, inl, inr, refl, subst, true, List, [], ◌∷◌, arith, Bytes,
  codes, Bool-cases,
}
use qrelay.Libcommon.{Address}
use qrelay.MutableMail
use qrelay.Lua.{
  LuaValue, returned, and_then, and_then_cases, returned_injective, LuaLibrary, same_text,
  check_string,
}
use qrelay.LuaMail.{
  IncomingMail, max_headers, is_valid_header_name, is_valid_header_value, insert_header,
  insert_checked, check_name, check_value, new_index, set_attribute, set_checked_sender,
  set_checked_account, set_account, with_account, is_nil,
}

-- The object with one more header, whose name and value are legal.
pub record Inserted (l : LuaLibrary) (m q : IncomingMail) : Type 0 where
  pub name : Bytes
  pub value : Bytes
  pub legal_name : is_valid_header_name l name ≡ true
  pub legal_value : is_valid_header_value l value ≡ true
  pub room : m.n_headers < max_headers
  pub same_pointer : q.auto_close ≡ m.auto_close
  pub count : q.n_headers ≡ (m.n_headers + 1) % 2 ^ 32
  pub mail : q.mail ≡ MutableMail.insert_header m.mail name value

module _ (l : LuaLibrary) where
  checked-Inserted :
      (m q : IncomingMail) (name value : Bytes)
      → is_valid_header_name l name ≡ true
      → is_valid_header_value l value ≡ true
      → insert_checked l m name value ≡ returned q
      → Inserted l m q
  checked-Inserted m q name value n v h =
      let few : m.n_headers < max_headers = ground arith in
      let made : record m {
        n_headers = (m.n_headers + 1) % 2 ^ 32;
        mail = MutableMail.insert_header m.mail name value;
      }
          ≡ q =
        ground arith in
      subst (Inserted l m) made (record {
        name = name;
        value = value;
        legal_name = n;
        legal_value = v;
        room = few;
        same_pointer = refl;
        count = refl;
        mail = refl;
      })

  value-Inserted :
      (m q : IncomingMail) (name value : Bytes)
      → is_valid_header_name l name ≡ true
      → check_value l m name value ≡ returned q
      → Inserted l m q
  value-Inserted m q name value n h = elim (Bool-cases (is_valid_header_value l value)) [
    | inl good ↦
        let checked : insert_checked l m name value ≡ returned q = ground arith in
        checked-Inserted m q name value n good checked
    | inr bad ↦ absurd (ground arith)
  ]

  name-Inserted :
      (m q : IncomingMail) (value : LuaValue) (name : Bytes)
      → check_name l m value name ≡ returned q
      → Inserted l m q
  name-Inserted m q value name h = elim (Bool-cases (is_valid_header_name l name)) [
    | inl good ↦
        let rest : and_then (check_string l 3 value) (check_value l m name) ≡ returned q =
          ground arith in
        let (v, string_value, checked) =
          and_then_cases (check_string l 3 value) (check_value l m name) q rest in
        value-Inserted m q name v good checked
    | inr bad ↦ absurd (ground arith)
  ]

  pub insert_header-Inserted :
      (m q : IncomingMail) (args : List LuaValue)
      → insert_header l m args ≡ returned q
      → Inserted l m q
  unfolding insert_header
  insert_header-Inserted m q [] h = cc
  insert_header-Inserted m q (a ∷ []) h = cc
  insert_header-Inserted m q (name ∷ value ∷ []) h =
      let (n, string_name, rest) =
        and_then_cases (check_string l 2 name) (check_name l m value) q h in
      name-Inserted m q value n rest
  insert_header-Inserted m q (a ∷ b ∷ c ∷ more) h = cc

-- The object with another sender, a verified one, or with another account.
pub data Assigned (l : LuaLibrary) (address : Address) (m : IncomingMail)
    : IncomingMail → Type 0 where
  new_sender :
      (sender : Bytes)
      → address.verify sender ≡ true
      → Assigned l address m (record m { mail = MutableMail.set_sender m.mail sender })
  new_account : (account : Bytes) → Assigned l address m (with_account l address m account)

module _ (l : LuaLibrary) (address : Address) where
  sender-Assigned :
      (m q : IncomingMail) (sender : Bytes)
      → set_checked_sender l address m sender ≡ returned q
      → Assigned l address m q
  unfolding set_checked_sender
  sender-Assigned m q sender h = elim (Bool-cases (address.verify sender)) [
    | inl good ↦
        let made : record m { mail = MutableMail.set_sender m.mail sender } ≡ q = ground arith in
        subst (Assigned l address m) made (new_sender sender good)
    | inr bad ↦ absurd (ground arith)
  ]

  checked_account-Assigned :
      (m q : IncomingMail) (account : Bytes)
      → set_checked_account l address m account ≡ returned q
      → Assigned l address m q
  checked_account-Assigned m q [] h = cc
  checked_account-Assigned m q (c ∷ s) h =
      subst (Assigned l address m) (returned_injective h) (new_account (c ∷ s))

  set_account-Assigned :
      (m q : IncomingMail) (value : LuaValue)
      → set_account l address m value ≡ returned q
      → Assigned l address m q
  unfolding set_account
  set_account-Assigned m q value h = elim (Bool-cases (is_nil value)) [
    | inl none_given ↦
        let made : returned (with_account l address m []) ≡ returned q = ground arith in
        subst (Assigned l address m) (returned_injective made) (new_account [])
    | inr given ↦
        let rest : and_then (check_string l 3 value) (set_checked_account l address m)
            ≡ returned q =
          ground arith in
        let (s, string_value, checked) =
          and_then_cases (check_string l 3 value) (set_checked_account l address m) q rest in
        checked_account-Assigned m q s checked
  ]

  attribute-Assigned :
      (m q : IncomingMail) (value : LuaValue) (name : Bytes)
      → set_attribute l address m value name ≡ returned q
      → Assigned l address m q
  unfolding set_attribute
  attribute-Assigned m q value name h =
      elim (Bool-cases (same_text (c_string name) (codes "sender"))) [
        | inl is_sender ↦
            let rest : and_then (check_string l 3 value) (set_checked_sender l address m)
                ≡ returned q =
              ground arith in
            let (s, string_value, checked) =
              and_then_cases (check_string l 3 value) (set_checked_sender l address m) q rest in
            sender-Assigned m q s checked
        | inr not_sender ↦
            let rest : set_account l address m value ≡ returned q = ground arith in
            set_account-Assigned m q value rest
      ]

  pub new_index-Assigned :
      (m q : IncomingMail) (args : List LuaValue)
      → new_index l address m args ≡ returned q
      → Assigned l address m q
  unfolding new_index
  new_index-Assigned m q [] h = cc
  new_index-Assigned m q (a ∷ []) h = cc
  new_index-Assigned m q (name ∷ value ∷ []) h =
      let rest : and_then (check_string l 2 name) (set_attribute l address m value) ≡ returned q =
        ground arith in
      let (n, string_name, checked) =
        and_then_cases (check_string l 2 name) (set_attribute l address m value) q rest in
      attribute-Assigned m q value n checked
  new_index-Assigned m q (a ∷ b ∷ c ∷ more) h = cc
