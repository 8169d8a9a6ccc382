-- ===== src/LuaMail/Kept.antt =====
-- The invariant of IncomingMail (src/LMail.cxx) between two calls: the count of its headers, their
-- form, and its sender.
use qrelay.Common.{
  ℕ, ◌≤◌, ◌≡◌, ◌≢◌, ◌⊎◌, inl, inr, refl, ap, true, [], ◌∷◌, arith, Bytes, All, length,
}
use qrelay.Libcommon.{Address}
use qrelay.MutableMail
use qrelay.MutableMail.{MutableMail, header_line}
use qrelay.Lua.{LuaLibrary, LuaLibraryLaws}
use qrelay.LuaMail.{
  IncomingMail, max_headers, is_stale, close, is_valid_header_name_char, is_valid_header_value_char,
}
use qrelay.LuaMail.Returned.{Inserted, Assigned, new_sender, new_account}

-- A line of printable characters, with a name without a space or a colon.
abbrev pub IsNameChar : ℕ → Type 0
IsNameChar c = (33 ≤ c) × (c ≤ 126) × (c ≢ b':')

abbrev pub IsValueChar : ℕ → Type 0
IsValueChar c = (32 ≤ c) × (c ≤ 126)

pub record IsHeaderLine (line : Bytes) : Type 0 where
  pub name : Bytes
  pub value : Bytes
  pub layout : line ≡ header_line name value
  pub named : name ≢ []
  pub name_chars : All IsNameChar name
  pub value_chars : All IsValueChar value

name_chars_lem : (s : Bytes) → All (λ c. is_valid_header_name_char c ≡ true) s → All IsNameChar s
name_chars_lem [] h = tt
name_chars_lem (c ∷ s) h =
    let first : IsNameChar c = ground (arith, h.0) in (first, name_chars_lem s h.1)

value_chars_lem : (s : Bytes) → All (λ c. is_valid_header_value_char c ≡ true) s → All IsValueChar s
value_chars_lem [] h = tt
value_chars_lem (c ∷ s) h =
    let first : IsValueChar c = ground (arith, h.0) in (first, value_chars_lem s h.1)

-- What holds of a mail between two calls.
pub record IsKept (address : Address) (m : IncomingMail) : Type 0 where
  pub counted : length m.mail.headers ≤ m.n_headers
  pub limited : m.n_headers ≤ max_headers
  pub lines : All IsHeaderLine m.mail.headers
  pub good_sender : (is_stale m ≡ true) ⊎ (address.verify m.mail.sender ≡ true)

module _ (l : LuaLibrary) (laws : LuaLibraryLaws l) (address : Address) where
  pub insert-IsKept : (m q : IncomingMail) → IsKept address m → Inserted l m q → IsKept address q
  unfolding MutableMail.insert_header
  insert-IsKept m q k i =
      let (named, name_ok) =
        laws.all_checked_non_empty i.name is_valid_header_name_char i.legal_name in
      let line : IsHeaderLine (header_line i.name i.value) = record {
        name = i.name;
        value = i.value;
        layout = refl;
        named = named;
        name_chars = name_chars_lem i.name name_ok;
        value_chars =
            value_chars_lem i.value
              (laws.all_checked i.value is_valid_header_value_char i.legal_value);
      } in
      let headers : q.mail.headers ≡ header_line i.name i.value ∷ m.mail.headers =
        ap (λ (t : MutableMail). t.headers) i.mail in
      let sender : q.mail.sender ≡ m.mail.sender = ap (λ (t : MutableMail). t.sender) i.mail in
      record {
        counted = rw headers (omega (arith, k.counted, i.count, i.room));
        limited = omega (arith, i.count, i.room);
        lines = rw headers (line, k.lines);
        good_sender = rw (i.same_pointer, sender) k.good_sender;
      }

  pub assign-IsKept :
      (m q : IncomingMail) → IsKept address m → Assigned l address m q → IsKept address q
  unfolding MutableMail.set_sender
  assign-IsKept m q k (new_sender sender good) = record {
    counted = k.counted;
    limited = k.limited;
    lines = k.lines;
    good_sender = inr good;
  }
  assign-IsKept m q k (new_account account) = record {
    counted = k.counted;
    limited = k.limited;
    lines = k.lines;
    good_sender = k.good_sender;
  }

  pub close-IsKept : (m : IncomingMail) → IsKept address m → IsKept address (close m)
  unfolding close MutableMail.free
  close-IsKept m k = record {
    counted = omega arith;
    limited = k.limited;
    lines = tt;
    good_sender = inl refl;
  }
