-- ===== src/Connection/Handler/EndToEnd.antt =====
-- A submission on its whole way through `QmqpRelayConnection` (src/Connection.cxx), from the
-- client's request to its relay.
use qrelay.Common.{
  ℕ, ◌≡◌, ◌⊎◌, refl, ap, ◌∙◌, List, [], ◌∷◌, ◌++◌, Option, none, some, Bytes, ◌>>=◌,
}
use qrelay.Libcommon.{Text, Address, Strip}
use qrelay.Qmqp
use qrelay.Qmqp.{QmqpMail, success, no_mail}
use qrelay.Qmqp.Grammar.{Submission, envelope}
use qrelay.Qmqp.RoundTrip.{Sendable}
use qrelay.MutableMail.{MutableMail}
use qrelay.Action.{Action, connect, exec, exec_raw}
use qrelay.Connection.{Connection, State, lua, Send, sends}
use qrelay.Connection.Handler.{
  Event, Edit, apply_edit, requests, edits, lua_finishes, step, on_request, on_lua_finished,
  assemble_headers, received_lines,
}
use qrelay.Connection.Handler.LuaResult.{relays, relay_started}
use qrelay.Connection.Handler.Request.{stripped, on_request_success}

-- What the Lua handler's edits come to.
abbrev pub edit_all : MutableMail → List Edit → MutableMail
edit_all m [] = m
edit_all m (e ∷ es) = edit_all (apply_edit m e) es

pub assemble_lem :
    (c : Connection) (m : MutableMail) → assemble_headers c m ≡ m.headers ++ received_lines c.cred
unfolding assemble_headers
assemble_lem c m = refl

-- The sender of a mail that the parser took.
pub accepted_sender :
    (address : Address) {payload : Bytes} {mail : QmqpMail}
    → Submission address payload mail success
    → Sendable address mail.sender
accepted_sender address (envelope message rest sender after rs net net' good r) =
    (net'.is_size.fits, good)

module _ (truncate : Bytes → ℕ → Bytes) (text : Text) (address : Address) (strip : Strip) where
  -- The events one after the other.
  abbrev pub run : List (Event × Send) → Connection → Option Connection
  run [] c = some c
  run ((event, answer) ∷ events) c = step truncate text address strip c event answer >>= run events

  abbrev pub edit_events : List Edit → List (Event × Send) → List (Event × Send)
  edit_events [] events = events
  edit_events (e ∷ es) events = (edits e, sends) ∷ edit_events es events

  step_edits :
      (c : Connection) (m : MutableMail) (e : Edit)
      → c.mail_ptr ≡ some m
      → step truncate text address strip c (edits e) sends
        ≡ some (record c { mail_ptr = some (apply_edit m e) })
  unfolding step
  step_edits c m e h = rw h

  run_edits :
      (c : Connection) (m : MutableMail) (es : List Edit) (events : List (Event × Send))
      → run (edit_events es events) (record c { mail_ptr = some m })
        ≡ run events (record c { mail_ptr = some (edit_all m es) })
  run_edits c m [] events = refl
  run_edits c m (e ∷ es) events =
      ap (λ (o : Option Connection). o >>= run (edit_events es events))
        (step_edits (record c { mail_ptr = some m }) m e refl)
      ∙ run_edits c (apply_edit m e) es events

  step_lua :
      (c : Connection) (action : Option Action) (answer : Send)
      → step truncate text address strip c (lua_finishes action none) answer
        ≡ on_lua_finished truncate c action none answer
  unfolding step
  step_lua c action answer = refl

  step_request :
      (c : Connection) (payload : Bytes) (answer : Send)
      → step truncate text address strip c (requests payload) answer
        ≡ on_request truncate text address strip c payload answer
  unfolding step
  step_request c payload answer = refl

  -- A request, the edits of the handler, and its decision.
  abbrev pub script : Bytes → List Edit → Action → List (Event × Send)
  script payload es action =
      (requests payload, sends) ∷ edit_events es ((lua_finishes (some action) none, sends) ∷ [])

  abbrev pub waiting : Connection → MutableMail → Connection
  waiting c m = record c { mail_ptr = some m; state = lua }

  pub run-script :
      (c : Connection) (payload : Bytes) (mail : QmqpMail) (es : List Edit) (action : Action)
      → c.state ≡ State.init
      → Qmqp.parse text address no_mail payload ≡ some (mail, success)
      → (action.type ≡ connect) ⊎ ((action.type ≡ exec) ⊎ (action.type ≡ exec_raw))
      → let edited_mail = edit_all (stripped strip payload mail) es in
        run (script payload es action) c
        ≡ some (relays truncate (waiting c edited_mail) action edited_mail)
  run-script c payload mail es action i parsed type =
      ap (λ (o : Option Connection). o >>= run (edit_events es decision))
        (step_request c payload sends
          ∙ on_request_success truncate text address strip c payload mail sends i parsed)
      ∙ run_edits (record c { state = lua }) (stripped strip payload mail) es decision
      ∙ ap (λ (o : Option Connection). o >>= run [])
          (step_lua (waiting c edited_mail) (some action) sends
            ∙ relay_started truncate (waiting c edited_mail) action edited_mail sends refl refl
                type)
    where
      edited_mail : MutableMail
      edited_mail = edit_all (stripped strip payload mail) es

      decision : List (Event × Send)
      decision = (lua_finishes (some action) none, sends) ∷ []
