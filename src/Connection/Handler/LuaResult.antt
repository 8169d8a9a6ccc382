-- ===== src/Connection/Handler/LuaResult.antt =====
-- The invariant and the end of the Lua handler: `OnLuaFinished`, `OnLuaError` and `Do`
-- (src/Connection.cxx).
use qrelay.Common.{
  ℕ, ◌≡◌, ◌≢◌, ◌⊎◌, inl, inr, refl, sym, ap, ◌∙◌, true, false, ◌||◌, Option, none, some, arith,
  Bytes, codes, is_some, subst,
}
use qrelay.MutableMail.{MutableMail}
use qrelay.Action.{
  Action, ActionType, undefined, discard, reject, connect, exec, exec_raw, is_positive,
}
use qrelay.Relay.Basic.{HandlerCall}
use qrelay.Connection.{
  Connection, lua, not_relaying, relaying, Send, waits, finish, on_relay_call, on_lua_error,
}
use qrelay.Connection.Handler.{
  on_lua_finished, do_action, with_action, do_type, start_relay, assemble_headers,
}
use qrelay.Connection.Handler.Invariant.{
  Inv, Safe, ValidCall, DefinedAction, finish-Safe, call-Safe,
}

module _ (truncate : Bytes → ℕ → Bytes) where
  pub lua_error_lem :
      (c : Connection) (answer : Send)
      → c.state ≡ lua
      → is_some c.mail_ptr ≡ true
      → finish truncate c (codes "Zscript failed") answer ≡ on_lua_error truncate c answer
  unfolding on_lua_error
  lua_error_lem c answer l m = ground arith

  pub lua_error-Safe :
      (c : Connection) (answer : Send)
      → c.deleted ≡ false
      → Inv c
      → c.state ≡ lua
      → answer ≢ waits
      → Safe (on_lua_error truncate c answer)
  lua_error-Safe c answer alive v l w =
      subst Safe (lua_error_lem c answer l (v.has_mail alive (ground arith))) (
        finish-Safe truncate c _ _ answer (ground arith) (ground arith) (v.unanswered alive)
          (v.unlogged alive) refl w)

  -- The connection whose relay was just made.
  abbrev pub relays : Connection → Action → MutableMail → Connection
  relays c action mail = record c {
    state = relaying;
    timer = is_positive action.timeout || c.timer;
    relay_operation =
        some (record { action = action; mail = mail.mail; headers = assemble_headers c mail });
  }

  start_none :
      (c : Connection) (action : Action) (mail : MutableMail) (answer : Send)
      → start_relay truncate (record c { state = relaying }) action mail none answer
        ≡ some (relays c action mail)
  unfolding start_relay
  start_none c action mail answer = refl

  pub start_some :
      (c : Connection) (action : Action) (mail : MutableMail) (call : HandlerCall) (answer : Send)
      → start_relay truncate (record c { state = relaying }) action mail (some call) answer
        ≡ on_relay_call truncate (relays c action mail) call answer
  unfolding start_relay
  start_some c action mail call answer = refl

  start-Safe :
      (c : Connection) (action : Action) (mail : MutableMail) (call : Option HandlerCall)
      (answer : Send)
      → c.deleted ≡ false
      → Inv c
      → c.state ≡ lua
      → c.mail_ptr ≡ some mail
      → ValidCall call
      → answer ≢ waits
      → Safe (start_relay truncate (record c { state = relaying }) action mail call answer)
  start-Safe c action mail none answer alive v l m ok w =
      subst Safe (sym (start_none c action mail answer)) (ground arith)
  start-Safe c action mail (some call) answer alive v l m ok w =
      subst Safe (sym (start_some c action mail call answer)) (
        call-Safe truncate (relays c action mail) call answer refl refl (v.unanswered alive)
          (v.unlogged alive) ok w)

  pub do_action_lem :
      (c : Connection) (action : Action) (mail : MutableMail) (call : Option HandlerCall)
      (answer : Send)
      → do_type truncate action.type c action mail call answer
        ≡ do_action truncate c action mail call answer
  unfolding do_action
  do_action_lem c action mail call answer = refl

  pub discard_lem :
      (c : Connection) (action : Action) (mail : MutableMail) (call : Option HandlerCall)
      (answer : Send)
      → finish truncate (record c { state = not_relaying }) (codes "Kdiscarded") answer
        ≡ do_type truncate discard c action mail call answer
  unfolding do_type
  discard_lem c action mail call answer = refl

  pub reject_lem :
      (c : Connection) (action : Action) (mail : MutableMail) (call : Option HandlerCall)
      (answer : Send)
      → finish truncate (record c { state = not_relaying }) (codes "Drejected") answer
        ≡ do_type truncate reject c action mail call answer
  unfolding do_type
  reject_lem c action mail call answer = refl

  pub relay_lem :
      (type : ActionType) (c : Connection) (action : Action) (mail : MutableMail)
      → (call : Option HandlerCall) (answer : Send)
      → (type ≡ connect) ⊎ ((type ≡ exec) ⊎ (type ≡ exec_raw))
      → start_relay truncate (record c { state = relaying }) action mail call answer
        ≡ do_type truncate type c action mail call answer
  unfolding do_type
  relay_lem connect c action mail call answer h = refl
  relay_lem exec c action mail call answer h = refl
  relay_lem exec_raw c action mail call answer h = refl
  relay_lem undefined c action mail call answer h = ground arith
  relay_lem discard c action mail call answer h = ground arith
  relay_lem reject c action mail call answer h = ground arith

  type-Safe :
      (type : ActionType) (c : Connection) (action : Action) (mail : MutableMail)
      → (call : Option HandlerCall) (answer : Send) → type ≢ undefined
      → c.deleted ≡ false
      → Inv c
      → c.state ≡ lua
      → c.mail_ptr ≡ some mail
      → ValidCall call
      → answer ≢ waits
      → Safe (do_type truncate type c action mail call answer)
  type-Safe undefined c action mail call answer u alive v l m ok w = absurd (u refl)
  type-Safe discard c action mail call answer u alive v l m ok w =
      subst Safe (discard_lem c action mail call answer) (
        finish-Safe truncate (record c { state = not_relaying }) _ _ answer refl refl
          (v.unanswered alive) (v.unlogged alive) refl w)
  type-Safe reject c action mail call answer u alive v l m ok w =
      subst Safe (reject_lem c action mail call answer) (
        finish-Safe truncate (record c { state = not_relaying }) _ _ answer refl refl
          (v.unanswered alive) (v.unlogged alive) refl w)
  type-Safe connect c action mail call answer u alive v l m ok w =
      subst Safe (relay_lem connect c action mail call answer (inl refl))
        (start-Safe c action mail call answer alive v l m ok w)
  type-Safe exec c action mail call answer u alive v l m ok w =
      subst Safe (relay_lem exec c action mail call answer (inr (inl refl)))
        (start-Safe c action mail call answer alive v l m ok w)
  type-Safe exec_raw c action mail call answer u alive v l m ok w =
      subst Safe (relay_lem exec_raw c action mail call answer (inr (inr refl)))
        (start-Safe c action mail call answer alive v l m ok w)

  pub finished_lem :
      (c : Connection) (action : Option Action) (call : Option HandlerCall) (answer : Send)
      → c.state ≡ lua
      → with_action truncate c c.mail_ptr action call answer
        ≡ on_lua_finished truncate c action call answer
  unfolding on_lua_finished
  finished_lem c action call answer l = rw l

  pub with_action-some :
      (c : Connection) (mail : MutableMail) (action : Action) (call : Option HandlerCall)
      → (answer : Send)
      → do_action truncate c action mail call answer
        ≡ with_action truncate c (some mail) (some action) call answer
  unfolding with_action
  with_action-some c mail action call answer = refl

  pub with_action-none :
      (c : Connection) (mail : MutableMail) (call : Option HandlerCall) (answer : Send)
      → on_lua_error truncate c answer ≡ with_action truncate c (some mail) none call answer
  unfolding with_action
  with_action-none c mail call answer = refl

  with_action-Safe :
      (c : Connection) (mail : Option MutableMail) (action : Option Action)
      → (call : Option HandlerCall) (answer : Send) → c.deleted ≡ false
      → Inv c
      → c.state ≡ lua
      → c.mail_ptr ≡ mail
      → DefinedAction action
      → ValidCall call
      → answer ≢ waits
      → Safe (with_action truncate c mail action call answer)
  with_action-Safe c none action call answer alive v l m u ok w =
      absurd (ground (arith, v.has_mail alive))
  with_action-Safe c (some mail) none call answer alive v l m u ok w =
      subst Safe (with_action-none c mail call answer) (lua_error-Safe c answer alive v l w)
  with_action-Safe c (some mail) (some action) call answer alive v l m u ok w =
      subst Safe
        (do_action_lem c action mail call answer ∙ with_action-some c mail action call answer)
        (type-Safe action.type c action mail call answer u alive v l m ok w)

  pub lua-Safe :
      (c : Connection) (action : Option Action) (call : Option HandlerCall) (answer : Send)
      → c.deleted ≡ false
      → Inv c
      → c.state ≡ lua
      → DefinedAction action
      → ValidCall call
      → answer ≢ waits
      → Safe (on_lua_finished truncate c action call answer)
  lua-Safe c action call answer alive v l u ok w =
      subst Safe (finished_lem c action call answer l)
        (with_action-Safe c c.mail_ptr action call answer alive v l refl u ok w)

  -- The handler's decision to relay makes a relay for the mail as the handler left it.
  pub relay_started :
      (c : Connection) (action : Action) (mail : MutableMail) (answer : Send)
      → c.state ≡ lua
      → c.mail_ptr ≡ some mail
      → (action.type ≡ connect) ⊎ ((action.type ≡ exec) ⊎ (action.type ≡ exec_raw))
      → on_lua_finished truncate c (some action) none answer ≡ some (relays c action mail)
  relay_started c action mail answer l m type =
      sym (finished_lem c (some action) none answer l)
      ∙ ap (λ (m : Option MutableMail). with_action truncate c m (some action) none answer) m
      ∙ sym (with_action-some c mail action none answer)
      ∙ sym (do_action_lem c action mail none answer)
      ∙ sym (relay_lem action.type c action mail none answer type)
      ∙ start_none c action mail answer
