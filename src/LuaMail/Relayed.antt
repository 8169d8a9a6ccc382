-- ===== src/LuaMail/Relayed.antt =====
-- A submission on its whole way: the client's request and the relay's (src/Connection.cxx), with what
-- the Lua script does to the mail in between (src/LMail.cxx).
mod Tests
use qrelay.Common.{
  inl, inr, ◌+◌, concat-append, append-nil, ℕ, ◌≤◌, ◌<◌, ◌≡◌, ◌⊎◌, refl, sym, ap, ◌∙◌, subst, Bool,
  true, List, [], ◌∷◌, ◌++◌, Option, some, Bytes, All, length, concat, size_mod,
}
use qrelay.Libcommon.{Text, TextLaws, Address, Strip, Generator, GeneratorLaws}
use qrelay.Qmqp
use qrelay.Qmqp.{QmqpMail, success, no_mail}
use qrelay.Qmqp.Grammar.{Submission}
use qrelay.Qmqp.RoundTrip.{Sendable, parse_success-Submission}
use qrelay.MutableMail.{MutableMail}
use qrelay.Action.{Action, connect, exec, exec_raw}
use qrelay.Relay.Basic.{make_request}
use qrelay.Relay.Remote.{make_remote_relay}
use qrelay.Relay.Exec.{make_exec_relay}
use qrelay.Relay.RawExec.{RawExecRelay, make_raw_exec_relay, new_raw_exec_relay}
use qrelay.Relay.RawExec.Steps.{new_raw_exec_relay_room}
use qrelay.Connection.Session.Steps.{assembled_fits}
use qrelay.Relay.Basic.Request.{parse-make_request}
use qrelay.Connection.{Connection, Cred, Relay, make_connection}
use qrelay.Connection.Handler.{
  Edit, inserts_header, sets_sender, sets_account, apply_edit, assemble_headers, received_lines,
}
use qrelay.Connection.Handler.Request.{stripped}
use qrelay.Connection.Handler.LuaResult.{relays}
use qrelay.Connection.Handler.EndToEnd.{
  run, script, waiting, run-script, edit_all, assemble_lem, accepted_sender,
}
use qrelay.Lua.{LuaLibrary, LuaLibraryLaws}
use qrelay.LuaMail.{IncomingMail, make_incoming_mail, max_headers}
use qrelay.LuaMail.Kept.{IsHeaderLine}
use qrelay.LuaMail.Script.{ScriptCall, after_script, script_safe}
use qrelay.LuaMail.Edits.{IsVerifiedEdit, IsOpenCall, script_edits}

edit_all-verify :
    (address : Address) (m : MutableMail) (es : List Edit)
    → address.verify m.sender ≡ true
    → All (IsVerifiedEdit address) es
    → address.verify (edit_all m es).sender ≡ true
unfolding apply_edit
edit_all-verify address m [] good h = good
edit_all-verify address m (inserts_header name value ∷ es) good h =
    edit_all-verify address (apply_edit m (inserts_header name value)) es good h.1
edit_all-verify address m (sets_sender sender ∷ es) good h =
    edit_all-verify address (apply_edit m (sets_sender sender)) es h.0 h.1
edit_all-verify address m (sets_account account ∷ es) good h =
    edit_all-verify address (apply_edit m (sets_account account)) es good h.1

-- Edits leave the rest of the mail.
edit_all-rest :
    (m : MutableMail) (es : List Edit)
    → (edit_all m es).mail ≡ record (m.mail) { sender = (edit_all m es).sender }
unfolding apply_edit
edit_all-rest m [] = refl
edit_all-rest m (inserts_header name value ∷ es) =
    edit_all-rest (apply_edit m (inserts_header name value)) es
edit_all-rest m (sets_sender sender ∷ es) = edit_all-rest (apply_edit m (sets_sender sender)) es
edit_all-rest m (sets_account account ∷ es) = edit_all-rest (apply_edit m (sets_account account)) es

-- What the relay for an action sends for a mail: a submission to a QMQP server or a QMQP program, and
-- to a raw program the message alone. A raw relay's MultiWriteBuffer has room for `capacity` parts,
-- and its response buffer holds `junk` at first.
abbrev pub Sends : Text → Address → Generator → ℕ → Bytes → Relay → QmqpMail → Type 0
Sends text address generator capacity junk relay sent =
    ((relay.action.type ≡ connect)
      × (Qmqp.parse text address no_mail
            (concat (make_remote_relay generator relay.mail relay.headers).request)
          ≡ some (sent, success)))
    ⊎ (((relay.action.type ≡ exec)
          × (Qmqp.parse text address no_mail
                (concat (make_exec_relay generator relay.mail relay.headers).request)
              ≡ some (sent, success)))
        ⊎ ((relay.action.type ≡ exec_raw)
            × (r : RawExecRelay) × (new_raw_exec_relay capacity junk relay.mail relay.headers
                ≡ some r)
            × (r.pending ≡ sent.message)))

module _ (l : LuaLibrary) (truncate : Bytes → ℕ → Bytes) (text : Text) (address : Address)
    (strip : Strip) (generator : Generator) (capacity : ℕ) (junk : Bytes) where
  -- What the script leaves of the mail of a submission.
  abbrev pub scripted : Option Cred → Bytes → QmqpMail → List ScriptCall → MutableMail
  scripted cred payload mail calls =
      (after_script l address (make_incoming_mail (stripped strip payload mail) cred) calls).mail

  -- The message that is relayed with such a mail.
  abbrev pub relayed_message : Option Cred → QmqpMail → MutableMail → Bytes
  relayed_message cred mail m =
      concat (m.headers ++ received_lines cred) ++ strip.strip_left mail.message

  -- The mail that is relayed.
  abbrev pub relayed_mail : Option Cred → QmqpMail → MutableMail → QmqpMail
  relayed_mail cred mail m = record mail {
    message = relayed_message cred mail m;
    sender = m.sender;
  }

  -- The connection's way to a relay for the action, by the edits that the script comes to, and what
  -- that relay sends.
  pub record IsRelayed (c : Connection) (payload : Bytes) (mail : QmqpMail)
      (calls : List ScriptCall) (action : Action) : Type 0 where
    pub edits : List Edit
    pub waits : Connection
    pub relay : Relay
    pub edited : scripted c.cred payload mail calls ≡ edit_all (stripped strip payload mail) edits
    pub reached :
        run truncate text address strip (script truncate text address strip payload edits action) c
        ≡ some waits
    pub started : waits.relay_operation ≡ some relay
    pub as_decided : relay.action ≡ action
    pub few_headers : length (scripted c.cred payload mail calls).headers ≤ max_headers
    pub header_lines : All IsHeaderLine (scripted c.cred payload mail calls).headers
    pub verified : address.verify (scripted c.cred payload mail calls).sender ≡ true
    pub sends :
        Sends text address generator capacity junk relay
          (relayed_mail c.cred mail (scripted c.cred payload mail calls))

module _ (l : LuaLibrary) (lua_laws : LuaLibraryLaws l) (truncate : Bytes → ℕ → Bytes) (text : Text)
    (address : Address) (strip : Strip) (laws : TextLaws text) (generator : Generator)
    (generator_laws : GeneratorLaws generator) (capacity : ℕ) (junk : Bytes) where
  -- The request of the relay for a mail that was edited.
  edited_relayed :
      (c : Connection) (payload : Bytes) (mail : QmqpMail) (m : MutableMail)
      → Qmqp.parse text address no_mail payload ≡ some (mail, success)
      → m.mail ≡ record mail { message = strip.strip_left mail.message; sender = m.sender }
      → address.verify m.sender ≡ true
      → length m.sender < size_mod
      → let message =
          relayed_message l truncate text address strip generator capacity junk c.cred mail m in
        length message < size_mod
        → Qmqp.parse text address no_mail
            (concat (make_request generator m.mail (assemble_headers c m)))
          ≡ some (record mail { message = message; sender = m.sender }, success)
  edited_relayed c payload mail m parsed rest good short fits =
      let edited : QmqpMail = record mail {
        message = strip.strip_left mail.message;
        sender = m.sender;
      } in
      let asked : make_request generator m.mail (assemble_headers c m)
          ≡ make_request generator edited (m.headers ++ received_lines c.cred) =
        ap (λ (q : QmqpMail). make_request generator q (assemble_headers c m)) rest
        ∙ ap (make_request generator edited) (assemble_lem c m) in
      ap (λ (request : List Bytes). Qmqp.parse text address no_mail (concat request)) asked
      ∙ parse-make_request generator generator_laws text address laws payload
          (strip.strip_left mail.message) m.sender mail (m.headers ++ received_lines c.cred) parsed
          (short, good) fits

  raw_message :
      (c : Connection) (mail : QmqpMail) (m : MutableMail)
      → m.mail.message ≡ strip.strip_left mail.message
      → concat (assemble_headers c m ++ m.mail.message ∷ [])
        ≡ relayed_message l truncate text address strip generator capacity junk c.cred mail m
  raw_message c mail m same =
      ap (λ (headers : List Bytes). concat (headers ++ m.mail.message ∷ [])) (assemble_lem c m)
      ∙ concat-append (m.headers ++ received_lines c.cred) (m.mail.message ∷ [])
      ∙ ap (λ (s : Bytes). concat (m.headers ++ received_lines c.cred) ++ s)
          (append-nil m.mail.message ∙ same)

  -- Each of the three relays.
  edited-Sends :
      (c : Connection) (payload : Bytes) (mail : QmqpMail) (m : MutableMail) (action : Action)
      → Qmqp.parse text address no_mail payload ≡ some (mail, success)
      → m.mail ≡ record mail { message = strip.strip_left mail.message; sender = m.sender }
      → address.verify m.sender ≡ true
      → length m.sender < size_mod
      → length (relayed_message l truncate text address strip generator capacity junk c.cred mail m)
        < size_mod
      → length m.headers ≤ max_headers
      → max_headers + 2 ≤ capacity
      → (action.type ≡ connect) ⊎ ((action.type ≡ exec) ⊎ (action.type ≡ exec_raw))
      → Sends text address generator capacity junk
          (record { action = action; mail = m.mail; headers = assemble_headers c m })
          (relayed_mail l truncate text address strip generator capacity junk c.cred mail m)
  unfolding make_remote_relay make_exec_relay make_raw_exec_relay
  edited-Sends c payload mail m action parsed rest good short fits few room type =
      let request = edited_relayed c payload mail m parsed rest good short fits in
      elim type [
        | inl e ↦ inl (e, request)
        | inr (inl e) ↦ inr (inl (e, request))
        | inr (inr e) ↦ inr (
            inr (
              e,
              make_raw_exec_relay junk m.mail (assemble_headers c m),
              new_raw_exec_relay_room true capacity junk m.mail (assemble_headers c m)
                  (assembled_fits c m capacity few room),
              raw_message c mail m (ap (λ (q : QmqpMail). q.message) rest),
            ))
      ]

  -- A new connection gets a payload that the parser takes; its Lua script calls what methods of
  -- the mail it likes, with any arguments, but does not close the object, and decides to relay
  -- the mail. Then the connection starts a relay for that action. To a QMQP server or a QMQP
  -- program (CONNECT, EXEC) the relay sends a submission again, which the parser takes for: a
  -- message of at most 16 header lines, each of a name and a value of printable characters, then
  -- the "Received" line if the peer is known and the mail's message without the space in front;
  -- the sender that the script left, a verified one; the recipients and the tail of the mail. To
  -- a raw program (EXEC_RAW) it sends that message alone. The sender and the message fit a
  -- std::size_t, and a raw relay's MultiWriteBuffer has room for 18 parts.
  pub script-IsRelayed :
      (cred : Option Cred) (logging : Bool) (payload : Bytes) (mail : QmqpMail)
      → (calls : List ScriptCall) (action : Action)
      → Qmqp.parse text address no_mail payload ≡ some (mail, success)
      → All IsOpenCall calls
      → (action.type ≡ connect) ⊎ ((action.type ≡ exec) ⊎ (action.type ≡ exec_raw))
      → max_headers + 2 ≤ capacity
      → let m =
          scripted l truncate text address strip generator capacity junk cred payload mail calls in
        length m.sender < size_mod
        → length (relayed_message l truncate text address strip generator capacity junk cred mail m)
          < size_mod
        → IsRelayed l truncate text address strip generator capacity junk
            (make_connection cred logging)
            payload
            mail
            calls
            action
  script-IsRelayed cred logging payload mail calls action parsed ok type room short fits =
      let new = stripped strip payload mail in
      let source =
        accepted_sender address (parse_success-Submission text address laws payload mail parsed) in
      let (es, verified, edited) = script_edits l address (make_incoming_mail new cred) calls ok in
      let m =
        scripted l truncate text address strip generator capacity junk cred payload mail calls in
      let c =
        waiting truncate text address strip (make_connection cred logging) (edit_all new es) in
      let sender_good : address.verify m.sender ≡ true =
        subst (λ (t : MutableMail). address.verify t.sender ≡ true) (sym edited)
          (edit_all-verify address new es source.1 verified) in
      let rest : m.mail
          ≡ record mail { message = strip.strip_left mail.message; sender = m.sender } =
        subst (λ (t : MutableMail). t.mail ≡ record (new.mail) { sender = t.sender }) (sym edited)
          (edit_all-rest new es) in
      let (count, lines, good) = script_safe l address lua_laws new cred calls refl source.1 in
      record {
        edits = es;
        waits = relays truncate c action (edit_all new es);
        relay = record {
          action = action;
          mail = (edit_all new es).mail;
          headers = assemble_headers c (edit_all new es);
        };
        edited = edited;
        reached =
            run-script truncate text address strip (make_connection cred logging) payload mail es
              action refl parsed type;
        started = refl;
        as_decided = refl;
        few_headers = count;
        header_lines = lines;
        verified = sender_good;
        sends =
            subst
              (λ (t : MutableMail).
                Sends text address generator capacity junk
                  (record { action = action; mail = t.mail; headers = assemble_headers c t })
                  (relayed_mail l truncate text address strip generator capacity junk cred mail m))
              edited
              (edited-Sends c payload mail m action parsed rest sender_good short fits count room
                type);
      }
