-- ===== src/Connection/Session/Invariant.antt =====
-- The invariant of a session, which is a connection and its relay (src/Connection.cxx and the three
-- relays), and what can happen to it.
use qrelay.Common.{
  ◌+◌, ◌≤◌, ◌≡◌, ◌≢◌, ◌⊎◌, inl, inr, refl, sym, subst, true, false, Option, none, some, length,
  ◌>>=◌, is_some, arith, Bool-cases,
}
use qrelay.LuaMail.{max_headers}
use qrelay.Action.{Action, IsBounded, undefined}
use qrelay.Relay.RawExec.{buffer_size}
use qrelay.Connection.{Connection, lua, relaying}
use qrelay.Connection.Handler.Invariant.{Inv, Safe, Allowed}
use qrelay.Connection.Session.{
  RelayOperation, no_relay, remote_relay, exec_relay, raw_exec_relay, Session, SessionEvent,
  happens, handler_finishes, relay_happens, destroy_relay, settle,
}
use qrelay.Connection.Session.Relays.{RelayWaits, RelayCan}
use qrelay.Connection.Session.Ends.{FewHeaders, IsOver, Leaves, IsOutside}

-- No child is left to the relay: it is gone, or with the ChildProcessTerminator.
abbrev pub IsChildless : RelayOperation → Type 0
IsChildless no_relay = Unit
IsChildless (remote_relay r) = Unit
IsChildless (exec_relay r) = r.pidfd ≡ false
IsChildless (raw_exec_relay r) = r.pidfd ≡ false

-- What holds between two events.
pub record IsSession (s : Session) : Type 0 where
  pub answering : Inv s.connection
  pub working :
      s.connection.deleted ≡ false
      → ((s.connection.state ≡ relaying)
          × RelayWaits s.relay
          × (is_some s.connection.relay_operation ≡ true))
        ⊎ ((s.connection.state ≢ relaying) × (s.relay ≡ no_relay))
  pub childless : s.connection.deleted ≡ true → IsChildless s.relay
  pub few :
      s.connection.deleted ≡ false → s.connection.state ≡ lua → FewHeaders s.connection.mail_ptr

-- The result of a Lua handler: something else than an action, or one that was made for the mail.
abbrev pub IsResult : Option Action → Type 0
IsResult none = Unit
IsResult (some action) = (action.type ≢ undefined) × IsBounded action

-- What can happen: what is allowed for the connection, of which a script inserts 16 headers at most;
-- the end of its Lua handler, where a MultiWriteBuffer has room for those headers, the "Received"
-- line and the message; and what can happen to its relay. Nothing is assumed of the calls that the
-- relay makes.
abbrev pub Occurs : Session → SessionEvent → Type 0
Occurs s (happens e) = IsOutside s.connection.mail_ptr e × Allowed s.connection e
Occurs s (handler_finishes action start) =
    (s.connection.state ≡ lua)
    × IsResult action
    × (length start.junk ≡ buffer_size)
    × (max_headers + 2 ≤ start.capacity)
Occurs s (relay_happens e) = RelayCan s.relay e

abbrev pub SafeSession : Option Session → Type 0
SafeSession none = ⊥
SafeSession (some s) = IsSession s

destroy_relay-IsChildless : (relay : RelayOperation) → IsChildless (destroy_relay relay)
unfolding destroy_relay
destroy_relay-IsChildless no_relay = tt
destroy_relay-IsChildless (remote_relay r) = tt
destroy_relay-IsChildless (exec_relay r) = ground arith
destroy_relay-IsChildless (raw_exec_relay r) = ground arith

settle_over :
    (relay : RelayOperation) (c : Connection)
    → c.deleted ≡ true
    → settle relay c ≡ some (record { connection = c; relay = destroy_relay relay })
unfolding settle
settle_over relay c h = rw h refl

pub settle_alive :
    (relay : RelayOperation) (c : Connection)
    → c.deleted ≡ false
    → settle relay c ≡ some (record { connection = c; relay = relay })
unfolding settle
settle_alive relay c h = rw h refl

pub over-SafeSession :
    (relay : RelayOperation) (c : Connection)
    → Inv c
    → c.deleted ≡ true
    → SafeSession (settle relay c)
over-SafeSession relay c v h = subst SafeSession (sym (settle_over relay c h)) (record {
  answering = v;
  working = λ alive. cc;
  childless = λ gone. destroy_relay-IsChildless relay;
  few = λ alive. cc;
})

pub alive-SafeSession :
    (relay : RelayOperation) (c : Connection)
    → Inv c
    → c.deleted ≡ false
    → ((c.state ≡ relaying) × RelayWaits relay × (is_some c.relay_operation ≡ true))
      ⊎ ((c.state ≢ relaying) × (relay ≡ no_relay))
    → (c.state ≡ lua → FewHeaders c.mail_ptr)
    → SafeSession (settle relay c)
alive-SafeSession relay c v h works few =
    subst SafeSession (sym (settle_alive relay c h)) (record {
      answering = v;
      working = λ alive. works;
      childless = λ gone. cc;
      few = λ alive. few;
    })

-- Behind a step that deletes the connection.
pub over_settled :
    (relay : RelayOperation) (o : Option Connection)
    → Safe o
    → IsOver o
    → SafeSession (o >>= settle relay)
over_settled relay none safe over = safe
over_settled relay (some c) safe over = over-SafeSession relay c safe over

-- Behind an event from outside.
pub left_settled :
    (s : Session) (o : Option Connection)
    → s.connection.deleted ≡ false
    → IsSession s
    → Safe o
    → Leaves s.connection o
    → SafeSession (o >>= settle s.relay)
left_settled s none alive v safe left = safe
left_settled s (some c) alive v safe left = elim (Bool-cases c.deleted) [
  | inl gone ↦ over-SafeSession s.relay c safe gone
  | inr here ↦
      alive-SafeSession s.relay c safe here
        (elim left [ inl gone ↦ cc | inr (l, before, few) ↦ inr ((λ r. cc), not_yet before) ])
        (elim left [ inl gone ↦ λ l. cc | inr (l, before, few) ↦ λ l. few ])
]
  where
    not_yet : s.connection.state ≢ relaying → s.relay ≡ no_relay
    not_yet before = elim (v.working alive) [
      | inl (relays, waits_for, made) ↦ absurd (before relays)
      | inr (other, none_yet) ↦ none_yet
    ]
