-- ===== src/Connection/Session/Nearer.antt =====
-- What can happen next to a session that waits for its relay (src/Connection.cxx and the three
-- relays), and where it leaves the session.
use qrelay.Common.{
  ℕ, ◌<◌, ◌≡◌, ◌⊎◌, inl, inr, sym, subst, true, false, [], ◌∷◌, Option, none, some, Bytes, ◌>>=◌,
  is_some,
}
use qrelay.Libcommon.{Text, Address, Strip, Generator, Arrays}
use qrelay.Connection.{Connection, relaying, sends, on_relay_call}
use qrelay.Connection.Handler.Invariant.{Inv, Safe}
use qrelay.Connection.Handler.Request.{relay-Safe}
use qrelay.Connection.Session.Ends.{IsOver, call-IsOver}
use qrelay.Connection.Session.Invariant.{settle_alive}
use qrelay.Connection.Session.Steps.{deliver_one, deliver_none}
use qrelay.Connection.Session.{
  Session, relay_happens, deliver_calls, settle, session_step, RelayOperation, RelayEvent, Told,
  relay_step,
}
use qrelay.Connection.Session.Relays.{RelayWaits, RelayCan, TellsOnce, relay_step-TellsOnce}
use qrelay.Connection.Session.Progress.{outstanding, Progress, relay-Progress}

module _ (arrays : Arrays) (truncate : Bytes → ℕ → Bytes) where
  -- The session that is left is deleted, or its relay has less to get.
  abbrev pub Nearer : Session → Option Session → Type 0
  Nearer s none = ⊥
  Nearer s (some next) =
      (next.connection.deleted ≡ true) ⊎ (outstanding next.relay < outstanding s.relay)

  over-Nearer :
      (s : Session) (relay : RelayOperation) (o : Option Connection)
      → Safe o
      → IsOver o
      → Nearer s (o >>= settle relay)
  unfolding settle
  over-Nearer s relay none safe over = safe
  over-Nearer s relay (some c) safe over = inl over

  told-Nearer :
      (s : Session) (told : Told)
      → TellsOnce told
      → Progress s.relay told
      → s.connection.deleted ≡ false
      → Inv s.connection
      → s.connection.state ≡ relaying
      → is_some s.connection.relay_operation ≡ true
      → Nearer s (told >>= λ t. deliver_calls truncate t.1 sends s.connection >>= settle t.0)
  told-Nearer s none once progress alive v works made = once
  told-Nearer s (some (relay, [])) once progress alive v works made =
      subst (λ (o : Option Connection). Nearer s (o >>= settle relay))
        (sym (deliver_none truncate sends s.connection))
        (subst (Nearer s) (sym (settle_alive relay s.connection alive)) (inr progress))
  told-Nearer s (some (relay, call ∷ [])) once progress alive v works made =
      subst (λ (o : Option Connection). Nearer s (o >>= settle relay))
        (sym (deliver_one truncate call sends s.connection alive))
        (over-Nearer s relay (on_relay_call truncate s.connection call sends)
          (relay-Safe truncate s.connection call sends alive v made once (λ e. cc))
          (call-IsOver truncate s.connection call sends works once (λ e. cc)))
  told-Nearer s (some (relay, call ∷ d ∷ calls)) once progress alive v works made = absurd once

  module _ (text : Text) (address : Address) (strip : Strip) (generator : Generator) where
    -- A relaying session can get on.
    pub session_progress :
        (s : Session)
        → s.connection.deleted ≡ false
        → Inv s.connection
        → s.connection.state ≡ relaying
        → is_some s.connection.relay_operation ≡ true
        → RelayWaits s.relay
        → (e : RelayEvent) × RelayCan s.relay e
          × Nearer s
              (session_step truncate text address strip generator arrays s (relay_happens e) sends)
    unfolding session_step
    session_progress s alive v works made waiting =
        let (e, can, progress) = relay-Progress arrays s.relay waiting in
        (
          e,
          can,
          told-Nearer s (relay_step arrays sends s.relay e)
              (relay_step-TellsOnce arrays sends s.relay e (λ n. cc) can waiting) progress alive v
              works made,
        )
