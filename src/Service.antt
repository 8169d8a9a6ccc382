-- ===== src/Service.antt =====
-- The whole program: a mail on its way from the listener that its client connects to
-- (src/Main.cxx, src/Instance.cxx) to the request of its relay (src/Connection.cxx, src/LMail.cxx).
mod Tests
use qrelay.Common.{
  ℕ, ◌^◌, ◌+◌, ◌*◌, ◌≤◌, ◌<◌, ◌≡◌, ◌⊎◌, refl, ap, is_some, [], List, ◌∷◌, ◌++◌, Option, none, some,
  Bytes, All, Mem, All-Mem, length, length-append, length-concat-le, concat, concat-append, arith,
  size_mod,
}
use native.Mathlib.Bridge.{le_prop}
use qrelay.Libcommon.{Text, TextLaws, Address, Strip, StripLaws, Generator, GeneratorLaws}
use qrelay.Qmqp
use qrelay.Qmqp.{QmqpMail, success, no_mail}
use qrelay.Qmqp.Grammar.{Submission, envelope}
use qrelay.Qmqp.RoundTrip.{parse_success-Submission}
use qrelay.MutableMail.{MutableMail}
use qrelay.Action.{Action, connect, exec, exec_raw}
use qrelay.Connection.{Cred}
use qrelay.Connection.Handler.{received_lines, received_line}
use qrelay.Connection.Handler.Request.{stripped}
use qrelay.Connection.Handler.EndToEnd.{accepted_sender}
use qrelay.Connection.Handler.Received.{received_line_fits}
use qrelay.Exception.{completed}
use qrelay.CommandLine.{CommandLine}
use qrelay.Instance.{Instance, Listener, accept}
use qrelay.Lua.{LuaLibraryLaws}
use qrelay.LuaMail.{max_headers}
use qrelay.LuaMail.Script.{ScriptCall, script_safe}
use qrelay.LuaMail.Edits.{IsOpenCall}
use qrelay.LuaMail.Relayed.{scripted, relayed_message, IsRelayed, script-IsRelayed}
use qrelay.Main.{Platform, PlatformLaws}
use qrelay.Main.Bounds.{IsBounded}
use qrelay.Main.Load.{Environment, Process}
use qrelay.Main.Run.{LoopEvent, start, event_loop}
use qrelay.Main.Run.Loop.{event_loop-IsListening}

-- What the system tells of a peer is a process id and a user id of 32 bits each.
abbrev pub IsPeer : Option Cred → Type 0
IsPeer none = Unit
IsPeer (some cred) = (cred.pid < 2 ^ 32) × (cred.uid < 2 ^ 32)

-- The length of what a script leaves of one text.
abbrev pub max_text : ℕ
max_text = 2 ^ 58

received_lines_fit :
    (cred : Option Cred) → IsPeer cred → length (concat (received_lines cred)) ≤ 256
received_lines_fit none peer = omega arith
received_lines_fit (some cred) peer =
    omega (arith, received_line_fits cred peer.0 peer.1, length-append (received_line cred) [])

-- A mail's message is shorter than its payload.
Submission-message :
    (address : Address) (payload : Bytes) (mail : QmqpMail)
    → Submission address payload mail success
    → length mail.message ≤ length payload
Submission-message address payload mail (envelope message rest sender after rs net net' good r) =
    omega (
      arith,
      ap length net.layout,
      length-append net.size (b':' ∷ (message ++ b',' ∷ rest)),
      length-append message (b',' ∷ rest),
    )

strip_left-le :
    (strip : Strip) → StripLaws strip → (s : Bytes) → length (strip.strip_left s) ≤ length s
strip_left-le strip laws s =
    let (front, whole) = laws.strip_left_end s in
    omega (arith, ap length whole, length-append front (strip.strip_left s))

-- A few lines of bounded length, the "Received" line and a message of bounded length.
message_fits :
    (headers : List Bytes) (cred : Option Cred) (message : Bytes)
    → length headers ≤ max_headers
    → All (λ line. length line ≤ max_text) headers
    → IsPeer cred
    → length message ≤ 2 ^ 30
    → length (concat (headers ++ received_lines cred) ++ message) < size_mod
message_fits headers cred message few lines peer small = omega (
  arith,
  length-append (concat (headers ++ received_lines cred)) message,
  ap length (concat-append headers (received_lines cred)),
  length-append (concat headers) (concat (received_lines cred)),
  length-concat-le max_text headers lines,
  received_lines_fit cred peer,
  few,
)

module _ (p : Platform) (platform_laws : PlatformLaws p) (lua_laws : LuaLibraryLaws p.lua)
    (env : Environment) (truncate : Bytes → ℕ → Bytes) (text : Text) (text_laws : TextLaws text)
    (address : Address) (strip : Strip) (strip_laws : StripLaws strip) (generator : Generator)
    (generator_laws : GeneratorLaws generator) (capacity : ℕ) (junk : Bytes) where
  listener_bounded :
      (directory : Bytes) (cmdline : CommandLine) (q : Process) (events : List LoopEvent)
      → (listener : Listener) → start p env directory cmdline ≡ completed q
      → Mem listener (event_loop p q.instance_of events).listeners
      → listener.max_size ≤ 2 ^ 30
  listener_bounded directory cmdline q events listener started here =
      (All-Mem IsBounded (λ l. hlevel le_prop) (event_loop p q.instance_of events).listeners
        (event_loop-IsListening p platform_laws env directory cmdline q events started).0 here).1

  -- The process has started and its event loop has had any events; then a client connects to one
  -- of its listeners and sends a payload within that listener's size, which the parser takes. The
  -- handler calls what methods of the mail it likes, with any arguments, but does not close the
  -- object, leaves a sender and header lines of at most 2 ^ 58 bytes each, and decides to relay.
  -- Then the accepted connection starts a relay for that action. To a QMQP server or a QMQP
  -- program (CONNECT, EXEC) the relay sends a submission again, which the parser takes for: a
  -- message of at most 16 header lines of printable names and values, the "Received" line if the
  -- peer is known, and the mail's message without the space in front; the sender that the handler
  -- left, a verified one; the recipients and the tail of the mail. To a raw program (EXEC_RAW) it
  -- sends that message alone. A raw relay's MultiWriteBuffer has room for 18 parts.
  pub mail-IsRelayed :
      (directory : Bytes) (cmdline : CommandLine) (q : Process) (events : List LoopEvent)
      → (listener : Listener) (cred : Option Cred) (payload : Bytes) (mail : QmqpMail)
      → (calls : List ScriptCall) (action : Action) → start p env directory cmdline ≡ completed q
      → Mem listener (event_loop p q.instance_of events).listeners
      → IsPeer cred
      → let accepted = accept (event_loop p q.instance_of events) listener cred in
        length payload ≤ accepted.max_size
        → Qmqp.parse text address no_mail payload ≡ some (mail, success)
        → All IsOpenCall calls
        → (action.type ≡ connect) ⊎ ((action.type ≡ exec) ⊎ (action.type ≡ exec_raw))
        → max_headers + 2 ≤ capacity
        → let m =
            scripted p.lua truncate text address strip generator capacity junk cred payload mail
              calls in
          length m.sender ≤ max_text
          → All (λ line. length line ≤ max_text) m.headers
          → IsRelayed p.lua truncate text address strip generator capacity junk accepted.connection
              payload mail calls action
  mail-IsRelayed directory cmdline q events listener cred payload mail calls action started here
        peer sized parsed ok type room short lines =
      let submission = parse_success-Submission text address text_laws payload mail parsed in
      let bounded = listener_bounded directory cmdline q events listener started here in
      let (few, line_forms, good) =
        script_safe p.lua address lua_laws (stripped strip payload mail) cred calls refl
          (accepted_sender address submission).1 in
      script-IsRelayed p.lua lua_laws truncate text address strip text_laws generator generator_laws
        capacity junk cred (is_some (event_loop p q.instance_of events).log_socket) payload mail
        calls action parsed ok type room (omega (arith, short))
        (message_fits
          (scripted p.lua truncate text address strip generator capacity junk cred payload mail
            calls).headers
          cred (strip.strip_left mail.message) few lines peer
          (omega (
            arith,
            strip_left-le strip strip_laws mail.message,
            Submission-message address payload mail submission,
            sized,
            bounded,
          )))
