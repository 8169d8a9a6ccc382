-- ===== src/Connection/Session/Paths.antt =====
-- The paths of events of a session, which is a connection and its relay (src/Connection.cxx and the
-- three relays).
use qrelay.Common.{
  ℕ, ◌≤◌, ◌≡◌, ◌≢◌, ◌⊎◌, inl, inr, refl, subst, Bool, true, false, [], Option, none, some, Bytes,
  All, length,
}
use qrelay.Libcommon.{Text, TextLaws, Address, Strip, Generator, Arrays}
use qrelay.Connection.{Cred, init, lua, Send, sends, waits}
use qrelay.Connection.Handler.Invariant.{IsValidResponse, make_connection-Inv}
use qrelay.Connection.Session.{
  RelayEvent, Session, SessionEvent, relay_happens, new_session, session_step,
}
use qrelay.Connection.Session.Relays.{RelayCan}
use qrelay.Connection.Session.Nearer.{Nearer, session_progress}
use qrelay.Connection.Session.Invariant.{IsSession, IsChildless, Occurs, SafeSession}
use qrelay.Connection.Session.Steps.{session_step-SafeSession}

module _ (truncate : Bytes → ℕ → Bytes) (text : Text) (address : Address) (strip : Strip)
    (generator : Generator) (arrays : Arrays) where
  -- The session is reached from a new one by events that can occur where they happen, with sends
  -- that do not wait.
  pub data Reaches (cred : Option Cred) (logging : Bool) : Session → Type 0 where
    opens : Reaches cred logging (new_session cred logging)
    moves :
        {s s' : Session} (event : SessionEvent) (answer : Send)
        → Reaches cred logging s
        → s.connection.deleted ≡ false
        → Occurs s event
        → answer ≢ waits
        → session_step truncate text address strip generator arrays s event answer ≡ some s'
        → Reaches cred logging s'

  new_session-IsSession :
      (cred : Option Cred) (logging : Bool) → IsSession (new_session cred logging)
  new_session-IsSession cred logging = record {
    answering = make_connection-Inv cred logging;
    working = λ alive. inr ((λ r. cc), refl);
    childless = λ gone. tt;
    few = λ alive l. tt;
  }

  module _ (laws : TextLaws text) where
    Reaches-IsSession :
        {cred : Option Cred} {logging : Bool} {s : Session} → Reaches cred logging s → IsSession s
    Reaches-IsSession {cred = cred} {logging = logging} opens = new_session-IsSession cred logging
    Reaches-IsSession (moves {s = s} event answer r alive can w e) = subst SafeSession e (
        session_step-SafeSession truncate text address strip laws generator arrays s event answer
          alive (Reaches-IsSession r) can w)

    -- However the events of a connection and of its relay are interleaved, if a new session gets
    -- only events that can occur where they happen, and sends do not wait: the client has got at
    -- most one response, a valid one, and the log server was sent at most one datagram; and once
    -- the connection is deleted, no child process is left to the relay. In the events no read
    -- fails together with a hangup, the answers of programs are not empty, no action outgrows its
    -- arrays or runs a program without naming one, a script inserts at most 16 headers, and a
    -- MultiWriteBuffer has room for 18 parts.
    pub session_answers_once :
        (cred : Option Cred) (logging : Bool) (s : Session)
        → Reaches cred logging s
        → (length s.connection.responses ≤ 1)
          × All IsValidResponse s.connection.responses
          × (length s.connection.logs ≤ 1)
          × (s.connection.deleted ≡ true → IsChildless s.relay)
    session_answers_once cred logging s r =
        let v = Reaches-IsSession r in
        (v.answering.one_response, v.answering.valid, v.answering.one_log, v.childless)

    -- On every path of events that can occur from a new session, with sends that do not wait: if
    -- the connection is not deleted then the next event that can occur, with such a send, is
    -- handled without a fault: no assertion fails, no deleted object is used, no array and no
    -- MultiWriteBuffer of a raw relay overflows, and no handler is called behind its deletion. In
    -- the events no read fails together with a hangup, the answers of programs are not empty, no
    -- action outgrows its arrays or runs a program without naming one, a script inserts at most
    -- 16 headers, and a MultiWriteBuffer has room for 18 parts.
    pub session_step-ne-none :
        (cred : Option Cred) (logging : Bool) (s : Session) (event : SessionEvent) (answer : Send)
        → Reaches cred logging s
        → s.connection.deleted ≡ false
        → Occurs s event
        → answer ≢ waits
        → session_step truncate text address strip generator arrays s event answer ≢ none
    session_step-ne-none cred logging s event answer r alive can w e = subst SafeSession e (
        session_step-SafeSession truncate text address strip laws generator arrays s event answer
          alive (Reaches-IsSession r) can w)

    -- On every path of events that can occur from a new session, with sends that do not wait, the
    -- session does not hang: if the connection is not deleted, then nothing was answered yet, and
    -- it waits for the client's request, or for its Lua handler, or for its relay: then a next
    -- event of the relay can come that, with a send that succeeds, is handled without a fault and
    -- leaves the connection deleted or the relay with fewer results to get: a connection, an
    -- answer, the exit of the child or the end of its output. In the events no read fails
    -- together with a hangup, the answers of programs are not empty, no action outgrows its
    -- arrays or runs a program without naming one, a script inserts at most 16 headers, and a
    -- MultiWriteBuffer has room for 18 parts.
    pub session_waits :
        (cred : Option Cred) (logging : Bool) (s : Session)
        → Reaches cred logging s
        → s.connection.deleted ≡ false
        → (s.connection.responses ≡ [])
          × ((s.connection.state ≡ init)
              ⊎ ((s.connection.state ≡ lua)
                  ⊎ ((e : RelayEvent) × RelayCan s.relay e
                      × Nearer arrays truncate s (
                          session_step truncate text address strip generator arrays s
                            (relay_happens e)
                            sends))))
    session_waits cred logging s r alive =
        let v = Reaches-IsSession r in
        (
          v.answering.unanswered alive,
          elim (v.answering.phase alive) [
            | inl i ↦ inl i
            | inr (inl l) ↦ inr (inl l)
            | inr (inr works) ↦ elim (v.working alive) [
              | inl (relays, waiting, made) ↦ inr (
                  inr (
                    session_progress arrays truncate text address strip generator s alive
                      v.answering relays made waiting))
              | inr (other, none_yet) ↦ absurd (other works)
            ]
          ],
        )
