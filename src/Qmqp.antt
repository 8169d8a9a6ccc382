-- ===== src/Qmqp.antt =====
-- src/djb/QmqpMail.hxx and src/djb/QmqpMail.cxx: an email received via QMQP, and its parser. A
-- string_view is the text that it refers to; the tail, which the source makes by pointer
-- arithmetic, is cut from the payload by offsets.
pub mod Grammar
pub mod Parse
pub mod RoundTrip
mod Tests
use qrelay.Common.{
  ℕ, zero, suc, ◌+◌, ◌-◌, Bool, true, false, not, List, [], ◌∷◌, ◌++◌, Option, none, some, Bytes,
  leb, if◌then◌else◌, take, drop, length,
}
use qrelay.Libcommon.{Text, Address}
use qrelay.Netstring.{netstring, parse_netstring}

pub record QmqpMail : Type 0 where
  pub message : Bytes
  pub tail : Bytes
  pub sender : Bytes
  pub recipients : List Bytes

abbrev pub max_recipients : ℕ
max_recipients = 1024

pub data ParseResult : Type 0 where
  success malformed bad_address too_many_recipients : ParseResult

-- `QmqpMail{}`.
abbrev pub no_mail : QmqpMail
no_mail = record { message = []; tail = []; sender = []; recipients = [] }

-- The printer of the tests (test/TestQmqpMail.cxx), and its loop over the recipients.
abbrev pub print_recipients : List Bytes → Bytes
print_recipients [] = []
print_recipients (r ∷ rs) = netstring r ++ print_recipients rs

unfoldable pub make_qmqp : Bytes → Bytes → List Bytes → Bytes
make_qmqp message sender recipients =
    netstring message ++ (netstring sender ++ print_recipients recipients)

-- `MakeStringView`, with offsets into the payload for its two pointers.
pub make_string_view : Bytes → ℕ → ℕ → Bytes
make_string_view payload begin end = take (end - begin) (drop begin payload)

abbrev is_empty : Bytes → Bool
is_empty [] = true
is_empty (c ∷ s) = false

abbrev push_recipient : QmqpMail → Bytes → QmqpMail
push_recipient mail value = record mail { recipients = mail.recipients ++ value ∷ [] }

module _ (address : Address) where
  -- One round of the loop behind its `ParseNetstring`; `again` is the next round.
  add_recipient :
      (QmqpMail → Bytes → Option (QmqpMail × ParseResult))
      → QmqpMail
      → Option Bytes × Bytes
      → Option (QmqpMail × ParseResult)
  add_recipient again mail (none, input) = some (mail, malformed)
  add_recipient again mail (some value, input) =
      let more = again (push_recipient mail value) input in
      if not (address.verify value)
      then some (mail, bad_address)
      else if leb max_recipients (length mail.recipients)
      then some (mail, too_many_recipients)
      else if is_empty input
      then some (push_recipient mail value, success)
      else more

module _ (text : Text) (address : Address) where
  -- The `do … while (!input.empty())` loop; `none` means that the fuel ran out.
  parse_recipients : ℕ → QmqpMail → Bytes → Option (QmqpMail × ParseResult)
  unfolding add_recipient
  parse_recipients zero mail input = none
  parse_recipients (suc fuel) mail input =
      add_recipient address (parse_recipients fuel) mail (parse_netstring text input)

  -- Behind the second `ParseNetstring`. A round takes at least one byte of the input.
  with_sender : Bytes → QmqpMail → Option Bytes × Bytes → Option (QmqpMail × ParseResult)
  unfolding parse_recipients make_string_view
  with_sender payload mail (none, input) = some (mail, malformed)
  with_sender payload mail (some value, input) =
      let begin = length payload - length input in
      let tail = make_string_view payload (begin - 1) (length payload) in
      let rest =
        parse_recipients (suc (length input)) (record mail { sender = value; tail = tail }) input in
      if not (address.verify value) then some (mail, bad_address) else rest

  -- Behind the first `ParseNetstring`.
  with_message : Bytes → QmqpMail → Option Bytes × Bytes → Option (QmqpMail × ParseResult)
  unfolding with_sender
  with_message payload mail (none, input) = some (mail, malformed)
  with_message payload mail (some value, input) =
      with_sender payload (record mail { message = value }) (parse_netstring text input)

  -- `QmqpMail::Parse`: the object afterwards, and the result.
  unfoldable pub parse : QmqpMail → Bytes → Option (QmqpMail × ParseResult)
  unfolding with_message
  parse mail payload = with_message payload mail (parse_netstring text payload)
