-- ===== src/Connection/Session/Steps.antt =====
-- One event of a session, which is a connection and its relay (src/Connection.cxx and the three
-- relays).
use qrelay.Common.{
  ◌+◌, ◌≤◌, ◌++◌, length-append, ℕ, ◌≡◌, ◌≢◌, ◌⊎◌, inl, inr, refl, sym, ap, ◌∙◌, subst, Bool, true,
  false, [], ◌∷◌, Option, none, some, Bytes, length, ◌>>=◌, is_some, arith, if◌then◌else◌,
}
use qrelay.Libcommon.{Text, TextLaws, Address, Strip, Generator, Arrays}
use qrelay.MutableMail.{MutableMail}
use qrelay.LuaMail.{max_headers}
use qrelay.Action.{
  Action, ActionType, IsBounded, undefined, discard, reject, connect, exec, exec_raw,
}
use qrelay.Relay.Basic.{HandlerCall}
use qrelay.Relay.RawExec.{buffer_size, request_parts}
use qrelay.Connection.{Connection, Cred, lua, relaying, Send, waits, on_relay_call}
use qrelay.Connection.Handler
use qrelay.Connection.Handler.{
  Event, lua_finishes, assemble_headers, received_lines, on_lua_finished,
}
use qrelay.Connection.Handler.Invariant.{Inv, Safe, DefinedAction, ValidCall}
use qrelay.Connection.Handler.LuaResult
use qrelay.Connection.Handler.LuaResult.{lua-Safe, relay_started}
use qrelay.Connection.Handler.Request.{relay-Safe}
use qrelay.Connection.Handler.Steps.{step-Safe, step_lua}
use qrelay.Connection.Session.{
  RelayOperation, no_relay, Session, SessionEvent, happens, handler_finishes, relay_happens, Start,
  Told, relay_step, make_relay, first_call, settle, deliver_calls, finish_with, session_step,
}
use qrelay.Connection.Session.Relays.{
  RelayCan, TellsOnce, Relays, relay_step-TellsOnce, make_relay-TellsOnce,
}
use qrelay.Connection.Session.Ends.{
  FewHeaders, IsOver, call-IsOver, called-IsOver, refused-IsOver, no_action-IsOver, step-Leaves,
}
use qrelay.Connection.Session.Invariant.{
  IsSession, IsResult, Occurs, SafeSession, alive-SafeSession, over_settled, left_settled,
}

type_cases :
    (t : ActionType)
    → t ≢ undefined
    → ((t ≡ discard) ⊎ (t ≡ reject)) ⊎ ((t ≡ connect) ⊎ ((t ≡ exec) ⊎ (t ≡ exec_raw)))
type_cases undefined u = absurd (u refl)
type_cases discard u = inl (inl refl)
type_cases reject u = inl (inr refl)
type_cases connect u = inr (inl refl)
type_cases exec u = inr (inr (inl refl))
type_cases exec_raw u = inr (inr (inr refl))

bind_some : (o : Option Connection) → (o >>= λ c. some c) ≡ o
bind_some none = refl
bind_some (some c) = refl

received_lines-le : (cred : Option Cred) → length (received_lines cred) ≤ 1
received_lines-le none = omega arith
received_lines-le (some cred) = omega arith

-- What the relay of a mail with few headers is made with fits a MultiWriteBuffer.
pub assembled_fits :
    (c : Connection) (mail : MutableMail) (capacity : ℕ)
    → FewHeaders (some mail)
    → max_headers + 2 ≤ capacity
    → length (request_parts mail.mail (assemble_headers c mail)) ≤ capacity
unfolding assemble_headers
assembled_fits c mail capacity few room = omega (
  arith,
  length-append (mail.headers ++ received_lines c.cred) (mail.mail.message ∷ []),
  length-append mail.headers (received_lines c.cred),
  received_lines-le c.cred,
)

module _ (truncate : Bytes → ℕ → Bytes) where
  pub deliver_one :
      (call : HandlerCall) (answer : Send) (c : Connection)
      → c.deleted ≡ false
      → deliver_calls truncate (call ∷ []) answer c ≡ on_relay_call truncate c call answer
  unfolding deliver_calls
  deliver_one call answer c alive =
      ap (λ (b : Bool). if b then none else (on_relay_call truncate c call answer >>= λ d. some d))
        alive
      ∙ bind_some (on_relay_call truncate c call answer)

  pub deliver_none : (answer : Send) (c : Connection) → deliver_calls truncate [] answer c ≡ some c
  unfolding deliver_calls
  deliver_none answer c = refl

  -- The calls of a relay that waited.
  told-SafeSession :
      (told : Told) (c : Connection) (answer : Send)
      → TellsOnce told
      → c.deleted ≡ false
      → Inv c
      → c.state ≡ relaying
      → is_some c.relay_operation ≡ true
      → answer ≢ waits
      → SafeSession (told >>= λ t. deliver_calls truncate t.1 answer c >>= settle t.0)
  told-SafeSession none c answer once alive v s r w = once
  told-SafeSession (some (relay, [])) c answer once alive v s r w =
      subst (λ (o : Option Connection). SafeSession (o >>= settle relay))
        (sym (deliver_none answer c))
        (alive-SafeSession relay c v alive (inl (s, once, r)) (λ l. cc))
  told-SafeSession (some (relay, call ∷ [])) c answer once alive v s r w =
      subst (λ (o : Option Connection). SafeSession (o >>= settle relay))
        (sym (deliver_one call answer c alive))
        (over_settled relay (on_relay_call truncate c call answer)
          (relay-Safe truncate c call answer alive v r once w)
          (call-IsOver truncate c call answer s once w))
  told-SafeSession (some (relay, call ∷ d ∷ calls)) c answer once alive v s r w = absurd once

  module _ (text : Text) (address : Address) (strip : Strip) (laws : TextLaws text)
      (generator : Generator) (arrays : Arrays) where
    abbrev relayed : Connection → Action → MutableMail → Connection
    relayed c action mail = LuaResult.relays truncate c action mail

    abbrev finished : Connection → Option Action → Option HandlerCall → Send → Option Connection
    finished c action call answer =
        Handler.step truncate text address strip c (lua_finishes action call) answer

    -- A decision without a call of a relay, or with one.
    finished-IsOver :
        (relay : RelayOperation) (c : Connection) (action : Option Action)
        (call : Option HandlerCall) (answer : Send)
        → c.deleted ≡ false
        → Inv c
        → c.state ≡ lua
        → DefinedAction action
        → ValidCall call
        → answer ≢ waits
        → IsOver (on_lua_finished truncate c action call answer)
        → SafeSession (finished c action call answer >>= settle relay)
    finished-IsOver relay c action call answer alive v l defined valid w over =
        subst (λ (o : Option Connection). SafeSession (o >>= settle relay))
          (step_lua truncate text address strip laws c action call answer)
          (over_settled relay (on_lua_finished truncate c action call answer)
            (lua-Safe truncate c action call answer alive v l defined valid w) over)

    made-SafeSession :
        (made : Told) (c : Connection) (action : Action) (mail : MutableMail) (answer : Send)
        → TellsOnce made
        → Relays action
        → action.type ≢ undefined
        → c.deleted ≡ false
        → Inv c
        → c.state ≡ lua
        → c.mail_ptr ≡ some mail
        → answer ≢ waits
        → SafeSession
            (made >>= λ t. finished c (some action) (first_call t.1) answer >>= settle t.0)
    made-SafeSession none c action mail answer once relays defined alive v l m w = once
    made-SafeSession (some (relay, [])) c action mail answer once relays defined alive v l m w =
        let started = relay_started truncate c action mail answer l m relays in
        subst (λ (o : Option Connection). SafeSession (o >>= settle relay))
          (sym started ∙ step_lua truncate text address strip laws c (some action) none answer)
          (alive-SafeSession relay (relayed c action mail)
            (subst Safe started
              (lua-Safe truncate c (some action) none answer alive v l defined tt w))
            alive (inl (refl, once, refl)) (λ l. cc))
    made-SafeSession (some (relay, call ∷ [])) c action mail answer once relays defined alive v l m
          w =
        finished-IsOver relay c (some action) (some call) answer alive v l defined once w
          (called-IsOver truncate c action mail call answer l m relays once w)
    made-SafeSession (some (relay, call ∷ d ∷ calls)) c action mail answer once relays defined alive
          v l m w =
        absurd once

    refused_made :
        (t : ActionType) (answer : Send) (c : Connection) (action : Action) (mail : MutableMail)
        (start : Start)
        → (t ≡ discard) ⊎ (t ≡ reject)
        → make_relay generator answer t action start mail.mail (assemble_headers c mail)
          ≡ some (no_relay, [])
    unfolding make_relay
    refused_made undefined answer c action mail start h = ground arith
    refused_made discard answer c action mail start h = refl
    refused_made reject answer c action mail start h = refl
    refused_made connect answer c action mail start h = ground arith
    refused_made exec answer c action mail start h = ground arith
    refused_made exec_raw answer c action mail start h = ground arith

    decided-SafeSession :
        (c : Connection) (action : Action) (mail : MutableMail) (start : Start) (answer : Send)
        → action.type ≢ undefined
        → IsBounded action
        → length start.junk ≡ buffer_size
        → length (request_parts mail.mail (assemble_headers c mail)) ≤ start.capacity
        → c.deleted ≡ false
        → Inv c
        → c.state ≡ lua
        → c.mail_ptr ≡ some mail
        → answer ≢ waits
        → SafeSession (
            make_relay generator answer action.type action start mail.mail (assemble_headers c mail)
            >>= λ t. finished c (some action) (first_call t.1) answer >>= settle t.0)
    decided-SafeSession c action mail start answer defined fits size room alive v l m w =
        elim (type_cases action.type defined) [
          | inl refuses ↦
              subst
                (λ (made : Told).
                  SafeSession
                    (made >>= λ t. finished c (some action) (first_call t.1) answer >>= settle t.0))
                (sym (refused_made action.type answer c action mail start refuses))
                (finished-IsOver no_relay c (some action) none answer alive v l defined tt w
                  (refused-IsOver truncate c action mail answer l m refuses w))
          | inr relays ↦
              made-SafeSession
                (make_relay generator answer action.type action start mail.mail
                  (assemble_headers c mail))
                c action mail answer
                (make_relay-TellsOnce generator arrays answer action start mail.mail
                  (assemble_headers c mail) w relays fits size room)
                relays defined alive v l m w
        ]

    finish_with-SafeSession :
        (relay : RelayOperation) (c : Connection) (mail : Option MutableMail)
        (action : Option Action) (start : Start) (answer : Send)
        → c.mail_ptr ≡ mail
        → FewHeaders mail
        → IsResult action
        → length start.junk ≡ buffer_size
        → max_headers + 2 ≤ start.capacity
        → c.deleted ≡ false
        → Inv c
        → c.state ≡ lua
        → answer ≢ waits
        → SafeSession (
            finish_with truncate text address strip generator arrays relay c mail action start
              answer)
    unfolding finish_with
    finish_with-SafeSession relay c none action start answer m few result size room alive v l w =
        absurd (ground (arith, v.has_mail alive))
    finish_with-SafeSession relay c (some mail) none start answer m few result size room alive v l
          w =
        finished-IsOver relay c none none answer alive v l tt tt w
          (no_action-IsOver truncate c mail answer l m w)
    finish_with-SafeSession relay c (some mail) (some action) start answer m few result size room
          alive v l w =
        decided-SafeSession c action mail start answer result.0 result.1 size
          (assembled_fits c mail start.capacity few room) alive v l m w

    -- Every event that can occur is handled without a fault, and the invariant holds again.
    pub session_step-SafeSession :
        (s : Session) (event : SessionEvent) (answer : Send)
        → s.connection.deleted ≡ false
        → IsSession s
        → Occurs s event
        → answer ≢ waits
        → SafeSession (session_step truncate text address strip generator arrays s event answer)
    unfolding session_step
    session_step-SafeSession s (happens e) answer alive v can w =
        left_settled s (Handler.step truncate text address strip s.connection e answer) alive v
          (step-Safe truncate text address strip laws s.connection e answer alive v.answering can.1
            w)
          (step-Leaves truncate text address strip laws s.connection e answer alive v.answering
            (v.few alive) can.0 can.1 w)
    session_step-SafeSession s (handler_finishes action start) answer alive v can w =
        finish_with-SafeSession s.relay s.connection s.connection.mail_ptr action start answer refl
          (v.few alive can.0) can.1 can.2 can.3 alive v.answering can.0 w
    session_step-SafeSession s (relay_happens e) answer alive v can w = elim (v.working alive) [
      | inl (relays, waiting, made) ↦
          told-SafeSession (relay_step arrays answer s.relay e) s.connection answer
            (relay_step-TellsOnce arrays answer s.relay e w can waiting) alive v.answering relays
            made w
      | inr (other, none_yet) ↦ absurd (subst (λ (r : RelayOperation). RelayCan r e) none_yet can)
    ]
