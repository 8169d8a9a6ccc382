-- ===== src/LuaMail/Edits.antt =====
-- A script's calls (src/LMail.cxx) and the edits in the events of the connection
-- (Connection/Handler).
use qrelay.Common.{◌≡◌, refl, sym, ap, ◌∙◌, true, List, [], ◌∷◌, ◌++◌, All, All-append}
use qrelay.Libcommon.{Address}
use qrelay.MutableMail
use qrelay.MutableMail.{MutableMail}
use qrelay.Connection.Handler.{Edit, inserts_header, sets_sender, sets_account, apply_edit}
use qrelay.Connection.Handler.EndToEnd.{edit_all}
use qrelay.Lua.{Result, raised, returned, LuaLibrary}
use qrelay.LuaMail.{IncomingMail, insert_header, new_index}
use qrelay.LuaMail.Returned.{
  Inserted, Assigned, new_sender, new_account, insert_header-Inserted, new_index-Assigned,
}
use qrelay.LuaMail.Script.{
  ScriptCall, inserts, assigns, closes, returned_or, after_call, after_script,
}

-- A sender that is set is a verified one.
abbrev pub IsVerifiedEdit : Address → Edit → Type 0
IsVerifiedEdit address (inserts_header name value) = Unit {0}
IsVerifiedEdit address (sets_sender sender) = address.verify sender ≡ true
IsVerifiedEdit address (sets_account account) = Unit {0}

-- A call that does not close the object.
abbrev pub IsOpenCall : ScriptCall → Type 0
IsOpenCall (inserts args) = Unit {0}
IsOpenCall (assigns args) = Unit {0}
IsOpenCall closes = ⊥

edit_all-append :
    (m : MutableMail) (es more : List Edit)
    → edit_all m (es ++ more) ≡ edit_all (edit_all m es) more
edit_all-append m [] more = refl
edit_all-append m (e ∷ es) more = edit_all-append (apply_edit m e) es more

module _ (l : LuaLibrary) (address : Address) where
  -- What a call does to the mail, in edits.
  Does : MutableMail → MutableMail → Type 0
  Does before after =
      (es : List Edit) × All (IsVerifiedEdit address) es × (after ≡ edit_all before es)

  Inserted-Does : (m q : IncomingMail) → Inserted l m q → Does m.mail q.mail
  unfolding Does apply_edit MutableMail.insert_header
  Inserted-Does m q i = (inserts_header i.name i.value ∷ [], (tt, tt), i.mail)

  Assigned-Does : (m q : IncomingMail) → Assigned l address m q → Does m.mail q.mail
  unfolding Does apply_edit MutableMail.set_sender
  Assigned-Does m q (new_sender sender good) = (sets_sender sender ∷ [], (good, tt), refl)
  Assigned-Does m q (new_account account) = (sets_account account ∷ [], (tt, tt), refl)

  nothing-Does : (m : MutableMail) → Does m m
  unfolding Does
  nothing-Does m = ([], tt, refl)

  call-Does :
      (m : IncomingMail) (call : ScriptCall)
      → IsOpenCall call
      → Does m.mail (after_call l address m call).mail
  call-Does m (inserts args) ok = go (insert_header l m args) refl
    where
      go :
          (r : Result IncomingMail)
          → insert_header l m args ≡ r
          → Does m.mail (returned_or m r).mail
      go (raised e) h = nothing-Does m.mail
      go (returned q) h = Inserted-Does m q (insert_header-Inserted l m q args h)
  call-Does m (assigns args) ok = go (new_index l address m args) refl
    where
      go :
          (r : Result IncomingMail)
          → new_index l address m args ≡ r
          → Does m.mail (returned_or m r).mail
      go (raised e) h = nothing-Does m.mail
      go (returned q) h = Assigned-Does m q (new_index-Assigned l address m q args h)
  call-Does m closes ok = absurd ok

  -- What a script does to the mail by calls that do not close the object comes to a list of the
  -- edits that the connection's events have, with verified senders.
  pub script_edits :
      (m : IncomingMail) (calls : List ScriptCall)
      → All IsOpenCall calls
      → (es : List Edit) × All (IsVerifiedEdit address) es
        × ((after_script l address m calls).mail ≡ edit_all m.mail es)
  unfolding Does
  script_edits m [] ok = ([], tt, refl)
  script_edits m (call ∷ calls) ok =
      let (first, good, done) = call-Does m call ok.0 in
      let (rest, good', done') = script_edits (after_call l address m call) calls ok.1 in
      (
        first ++ rest,
        All-append (IsVerifiedEdit address) first rest good good',
        done'
            ∙ ap (λ (t : MutableMail). edit_all t rest) done
            ∙ sym (edit_all-append m.mail first rest),
      )
