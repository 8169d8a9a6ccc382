-- ===== src/Connection/Session/Ends.antt =====
-- Where an event leaves the connection of a session (src/Connection.cxx): deleted, or with its Lua
-- handler.
use qrelay.Common.{
  ◌≤◌, ◌<◌, length, arith, ℕ, ◌≡◌, ◌≢◌, ◌⊎◌, inl, inr, refl, sym, ap, ◌∙◌, subst, true, false, [],
  ◌∷◌, Option, none, some, Bytes, is_some,
}
use qrelay.Libcommon.{Text, TextLaws, Address, Strip}
use qrelay.MutableMail
use qrelay.MutableMail.{MutableMail}
use qrelay.LuaMail.{max_headers}
use qrelay.Action.{Action, ActionType, undefined, discard, reject, connect, exec, exec_raw}
use qrelay.Relay.Basic.{HandlerCall, on_relay_response, on_relay_error, IsValidCall}
use qrelay.Connection.{
  Connection, init, lua, relaying, not_relaying, Send, waits, is_init, is_end, finish,
  on_relay_call, on_relay_timeout, on_lua_error, on_error, on_disconnect,
}
use qrelay.Connection.Finish.{finish_lem, client_error_lem, disconnect_lem}
use qrelay.Connection.Handler.{
  Event, requests, edits, lua_finishes, lua_fails, relay_times_out, client_fails,
  client_disconnects, relay_calls, step, on_lua_finished, with_action, do_type, Edit,
  inserts_header, sets_sender, sets_account, apply_edit, edited, on_request,
}
use qrelay.Connection.Handler.Invariant.{Inv, Allowed, response_lem, error_lem}
use qrelay.Connection.Handler.LuaResult.{
  relays, lua_error_lem, start_some, do_action_lem, discard_lem, reject_lem, relay_lem,
  finished_lem, with_action-some, with_action-none,
}
use qrelay.Connection.Handler.Request.{timeout_lem, phase_not_end, on_request_outcome}
use qrelay.Connection.Handler.Steps.{edited_lem}

-- The connection is deleted.
abbrev pub IsOver : Option Connection → Type 0
IsOver none = Unit
IsOver (some c) = c.deleted ≡ true

-- The mail has no more headers than a script may insert.
abbrev pub FewHeaders : Option MutableMail → Type 0
FewHeaders none = Unit
FewHeaders (some mail) = length mail.headers ≤ max_headers

-- A script inserts no header that is one too many.
abbrev pub EditFits : Option MutableMail → Edit → Type 0
EditFits none edit = Unit
EditFits (some mail) (inserts_header name value) = length mail.headers < max_headers
EditFits (some mail) (sets_sender sender) = Unit
EditFits (some mail) (sets_account account) = Unit

apply_edit-FewHeaders :
    (mail : MutableMail) (edit : Edit)
    → FewHeaders (some mail)
    → EditFits (some mail) edit
    → FewHeaders (some (apply_edit mail edit))
unfolding apply_edit MutableMail.insert_header MutableMail.set_sender
apply_edit-FewHeaders mail (inserts_header name value) few fits = omega arith
apply_edit-FewHeaders mail (sets_sender sender) few fits = few
apply_edit-FewHeaders mail (sets_account account) few fits = few

-- The connection is deleted, or the Lua handler runs and no relay was made yet.
abbrev pub Leaves : Connection → Option Connection → Type 0
Leaves c none = Unit
Leaves c (some d) =
    (d.deleted ≡ true) ⊎ ((d.state ≡ lua) × (c.state ≢ relaying) × FewHeaders d.mail_ptr)

-- What comes from the client, the timer and the Lua handler while it runs.
abbrev pub IsOutside : Option MutableMail → Event → Type 0
IsOutside mail (requests payload) = Unit
IsOutside mail (edits edit) = EditFits mail edit
IsOutside mail (lua_finishes action call) = ⊥
IsOutside mail lua_fails = Unit
IsOutside mail relay_times_out = Unit
IsOutside mail client_fails = Unit
IsOutside mail client_disconnects = Unit
IsOutside mail (relay_calls call) = ⊥

over-Leaves : (c : Connection) (o : Option Connection) → IsOver o → Leaves c o
over-Leaves c none h = tt
over-Leaves c (some d) h = inl h

module _ (truncate : Bytes → ℕ → Bytes) where
  finish-IsOver :
      (c : Connection) (d : ℕ) (response : Bytes) (answer : Send)
      → is_init c.state ≡ false
      → is_end c.state ≡ false
      → answer ≢ waits
      → IsOver (finish truncate c (d ∷ response) answer)
  finish-IsOver c d response answer i e w =
      subst IsOver (sym (finish_lem truncate c c.mail_ptr d response answer refl i e w)) refl

  pub call-IsOver :
      (c : Connection) (call : HandlerCall) (answer : Send)
      → c.state ≡ relaying
      → IsValidCall call
      → answer ≢ waits
      → IsOver (on_relay_call truncate c call answer)
  call-IsOver c (on_relay_response []) answer s v w = cc
  call-IsOver c (on_relay_response (d ∷ r)) answer s v w =
      subst IsOver (response_lem truncate c (d ∷ r) answer)
        (finish-IsOver c d r answer (ap is_init s) (ap is_end s) w)
  call-IsOver c (on_relay_error [] cause) answer s v w = cc
  call-IsOver c (on_relay_error (d ∷ r) cause) answer s v w =
      subst IsOver (error_lem truncate c (d ∷ r) cause answer)
        (finish-IsOver c d r answer (ap is_init s) (ap is_end s) w)

  lua_error-IsOver :
      (c : Connection) (answer : Send)
      → c.state ≡ lua
      → is_some c.mail_ptr ≡ true
      → answer ≢ waits
      → IsOver (on_lua_error truncate c answer)
  lua_error-IsOver c answer l m w =
      subst IsOver (lua_error_lem truncate c answer l m)
        (finish-IsOver c _ _ answer (ap is_init l) (ap is_end l) w)

  timeout-IsOver :
      (c : Connection) (answer : Send)
      → c.state ≡ relaying
      → answer ≢ waits
      → IsOver (on_relay_timeout truncate c answer)
  timeout-IsOver c answer s w =
      subst IsOver (timeout_lem truncate c answer)
        (finish-IsOver (record c { timer = false }) _ _ answer (ap is_init s) (ap is_end s) w)

  error-IsOver : (c : Connection) → is_end c.state ≡ false → IsOver (on_error truncate c)
  error-IsOver c e = subst IsOver (sym (client_error_lem truncate c c.mail_ptr refl e)) refl

  disconnect-IsOver : (c : Connection) → is_end c.state ≡ false → IsOver (on_disconnect truncate c)
  disconnect-IsOver c e = subst IsOver (sym (disconnect_lem truncate c c.mail_ptr refl e)) refl

  relaying-IsOver :
      (type : ActionType) (c : Connection) (action : Action) (mail : MutableMail)
      → (call : HandlerCall) (answer : Send)
      → (type ≡ connect) ⊎ ((type ≡ exec) ⊎ (type ≡ exec_raw))
      → IsValidCall call
      → answer ≢ waits
      → IsOver (do_type truncate type c action mail (some call) answer)
  relaying-IsOver type c action mail call answer h ok w =
      subst IsOver
        (sym (start_some truncate c action mail call answer)
          ∙ relay_lem truncate type c action mail (some call) answer h)
        (call-IsOver (relays truncate c action mail) call answer refl ok w)

  -- A relay that calls its handler while it is started.
  pub called-IsOver :
      (c : Connection) (action : Action) (mail : MutableMail) (call : HandlerCall) (answer : Send)
      → c.state ≡ lua
      → c.mail_ptr ≡ some mail
      → (action.type ≡ connect) ⊎ ((action.type ≡ exec) ⊎ (action.type ≡ exec_raw))
      → IsValidCall call
      → answer ≢ waits
      → IsOver (on_lua_finished truncate c (some action) (some call) answer)
  called-IsOver c action mail call answer l m h ok w =
      subst IsOver
        (do_action_lem truncate c action mail (some call) answer
          ∙ with_action-some truncate c mail action (some call) answer
          ∙ ap
              (λ (o : Option MutableMail).
                with_action truncate c o (some action) (some call) answer)
              (sym m)
          ∙ finished_lem truncate c (some action) (some call) answer l)
        (relaying-IsOver action.type c action mail call answer h ok w)

  refusing-IsOver :
      (type : ActionType) (c : Connection) (action : Action) (mail : MutableMail) (answer : Send)
      → (type ≡ discard) ⊎ (type ≡ reject)
      → answer ≢ waits
      → IsOver (do_type truncate type c action mail none answer)
  refusing-IsOver discard c action mail answer h w =
      subst IsOver (discard_lem truncate c action mail none answer)
        (finish-IsOver (record c { state = not_relaying }) _ _ answer refl refl w)
  refusing-IsOver reject c action mail answer h w =
      subst IsOver (reject_lem truncate c action mail none answer)
        (finish-IsOver (record c { state = not_relaying }) _ _ answer refl refl w)
  refusing-IsOver undefined c action mail answer (inl e) w = cc
  refusing-IsOver undefined c action mail answer (inr e) w = cc
  refusing-IsOver connect c action mail answer (inl e) w = cc
  refusing-IsOver connect c action mail answer (inr e) w = cc
  refusing-IsOver exec c action mail answer (inl e) w = cc
  refusing-IsOver exec c action mail answer (inr e) w = cc
  refusing-IsOver exec_raw c action mail answer (inl e) w = cc
  refusing-IsOver exec_raw c action mail answer (inr e) w = cc

  -- A decision that makes no relay.
  pub refused-IsOver :
      (c : Connection) (action : Action) (mail : MutableMail) (answer : Send)
      → c.state ≡ lua
      → c.mail_ptr ≡ some mail
      → (action.type ≡ discard) ⊎ (action.type ≡ reject)
      → answer ≢ waits
      → IsOver (on_lua_finished truncate c (some action) none answer)
  refused-IsOver c action mail answer l m h w =
      subst IsOver
        (do_action_lem truncate c action mail none answer
          ∙ with_action-some truncate c mail action none answer
          ∙ ap (λ (o : Option MutableMail). with_action truncate c o (some action) none answer)
              (sym m)
          ∙ finished_lem truncate c (some action) none answer l)
        (refusing-IsOver action.type c action mail answer h w)

  -- A handler that does not return an action.
  pub no_action-IsOver :
      (c : Connection) (mail : MutableMail) (answer : Send)
      → c.state ≡ lua
      → c.mail_ptr ≡ some mail
      → answer ≢ waits
      → IsOver (on_lua_finished truncate c none none answer)
  no_action-IsOver c mail answer l m w =
      subst IsOver
        (with_action-none truncate c mail none answer
          ∙ ap (λ (o : Option MutableMail). with_action truncate c o none none answer) (sym m)
          ∙ finished_lem truncate c none none answer l)
        (lua_error-IsOver c answer l (ap is_some m) w)

  module _ (text : Text) (address : Address) (strip : Strip) (laws : TextLaws text) where
    request-Leaves :
        (c : Connection) (payload : Bytes) (answer : Send)
        → c.state ≡ init
        → c.mail_ptr ≡ none
        → answer ≢ waits
        → Leaves c (on_request truncate text address strip c payload answer)
    request-Leaves c payload answer i m w =
        let (mail, result, spec, outcome) =
          on_request_outcome truncate text address strip laws c payload answer i m w in
        elim outcome [
          | inl (ok, e) ↦ subst (Leaves c) (sym e) (inr (refl, (λ r. cc), omega arith))
          | inr (bad, e) ↦ subst (Leaves c) (sym e) (inl refl)
        ]

    edited-Leaves :
        (c : Connection) (edit : Edit) (mail : Option MutableMail)
        → c.state ≡ lua
        → c.mail_ptr ≡ mail
        → FewHeaders mail
        → EditFits mail edit
        → Leaves c (edited truncate text address strip c edit mail)
    edited-Leaves c edit none l m few fits = inr (l, (λ r. cc), subst FewHeaders (sym m) tt)
    edited-Leaves c edit (some mail) l m few fits =
        inr (l, (λ r. cc), apply_edit-FewHeaders mail edit few fits)

    -- An event from outside leaves no relay behind that was not there before.
    pub step-Leaves :
        (c : Connection) (event : Event) (answer : Send)
        → c.deleted ≡ false
        → Inv c
        → (c.state ≡ lua → FewHeaders c.mail_ptr)
        → IsOutside c.mail_ptr event
        → Allowed c event
        → answer ≢ waits
        → Leaves c (step truncate text address strip c event answer)
    unfolding step
    step-Leaves c (requests payload) answer alive v few out ok w =
        request-Leaves c payload answer ok (v.no_mail_yet alive ok) w
    step-Leaves c (edits edit) answer alive v few out ok w =
        subst (Leaves c)
          (sym (edited_lem truncate text address strip laws c edit c.mail_ptr answer refl))
          (edited-Leaves c edit c.mail_ptr ok refl (few ok) out)
    step-Leaves c (lua_finishes action call) answer alive v few out ok w = absurd out
    step-Leaves c lua_fails answer alive v few out ok w =
        over-Leaves c _ (lua_error-IsOver c answer ok (v.has_mail alive (λ i. cc)) w)
    step-Leaves c relay_times_out answer alive v few out ok w =
        over-Leaves c _ (timeout-IsOver c answer (v.timer_relays alive ok) w)
    step-Leaves c client_fails answer alive v few out ok w =
        over-Leaves c _ (error-IsOver c (phase_not_end truncate c (v.phase alive)))
    step-Leaves c client_disconnects answer alive v few out ok w =
        over-Leaves c _ (disconnect-IsOver c (phase_not_end truncate c (v.phase alive)))
    step-Leaves c (relay_calls call) answer alive v few out ok w = absurd out
