-- ===== src/LuaMail/ReadBack.antt =====
-- `__newindex` and `__index` of IncomingMail (src/LMail.cxx) together.
use qrelay.Common.{
  ◌≡◌, ◌⊎◌, true, false, [], ◌∷◌, Option, Bytes, codes, arith, Bool-cases, inl, inr,
}
use qrelay.Libcommon.{Address}
use qrelay.MutableMail
use qrelay.Lua.{string, raised, returned, arg_error, LuaLibrary}
use qrelay.LuaMail.{
  IncomingMail, is_stale, text, array, push_array, index, new_index, set_attribute,
  set_checked_sender,
}

module _ (l : LuaLibrary) (address : Address) where
  -- On an object that is not closed, a verified sender can be assigned and is then read back,
  -- with the recipients as they were; any other is refused as the third argument, "Malformed email
  -- address".
  pub sender_read_back :
      (m : IncomingMail) (path : Option Bytes) (sender : Bytes)
      → is_stale m ≡ false
      → ((address.verify sender ≡ true)
          × ((q : IncomingMail) × (new_index l address m
                  (string (codes "sender") ∷ string sender ∷ [])
                ≡ returned q)
              × (index l q path (string (codes "sender") ∷ []) ≡ returned (q, text sender))
              × (index l q path (string (codes "recipients") ∷ [])
                  ≡ returned (q, array (push_array l m.mail.recipients)))))
        ⊎ ((address.verify sender ≡ false)
            × (new_index l address m (string (codes "sender") ∷ string sender ∷ [])
                ≡ raised (arg_error 3 (codes "Malformed email address"))))
  unfolding new_index set_attribute set_checked_sender index MutableMail.set_sender
  sender_read_back m path sender alive = elim (Bool-cases (address.verify sender)) [
    | inl good ↦ inl (
      good,
      (
        record m { mail = MutableMail.set_sender m.mail sender },
        ground arith,
        ground arith,
        ground arith,
      ),
    )
    | inr bad ↦ inr (bad, ground arith)
  ]
