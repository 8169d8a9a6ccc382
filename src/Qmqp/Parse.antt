-- ===== src/Qmqp/Parse.antt =====
-- `QmqpMail::Parse` (src/djb/QmqpMail.cxx) against the grammar: from a payload to its result.
use qrelay.Common.{
  subst, dec_lt, ℕ, zero, suc, ◌-◌, ◌<◌, ◌≤◌, ◌≡◌, inl, inr, sym, ap, ◌∙◌, true, false, List, [],
  ◌∷◌, ◌++◌, append_assoc, append-nil, some, Bool-cases, arith, Bytes, length, length-append,
  take_all, drop-length_append,
}
use qrelay.Libcommon.{Text, TextLaws, Address}
use qrelay.Netstring.{parse_netstring}
use qrelay.Netstring.Grammar.{IsNetstring, parse_netstring_cases}
use qrelay.Netstring.RoundTrip.{IsNetstring-shorter, IsNetstring-comma}
use qrelay.Qmqp.{
  QmqpMail, ParseResult, success, malformed, bad_address, too_many_recipients, max_recipients,
  no_mail, make_string_view, push_recipient, add_recipient, parse_recipients, with_sender,
  with_message, parse,
}
use qrelay.Qmqp.Grammar.{
  Recipients, garbage, refused, crowded, last, more, Submission, no_message, no_sender, bad_sender,
  envelope,
}

abbrev pub with_recipients : QmqpMail → List Bytes → QmqpMail
with_recipients mail rs = record mail { recipients = mail.recipients ++ rs }

-- The pointer one before the rest, up to the end, is the byte before the rest and the rest.
make_string_view_behind :
    (before rest : Bytes) (c : ℕ)
    → let payload = before ++ c ∷ rest in
      make_string_view payload (length payload - length rest - 1) (length payload) ≡ c ∷ rest
unfolding make_string_view
make_string_view_behind before rest c =
    let begin : length (before ++ c ∷ rest) - length rest - 1 ≡ length before =
      omega (arith, length-append before (c ∷ rest)) in
    let size : length (before ++ c ∷ rest) - length before ≡ length (c ∷ rest) =
      omega (arith, length-append before (c ∷ rest)) in
    rw (begin, size, drop-length_append before (c ∷ rest)) (take_all (c ∷ rest))

-- The sender's comma stands in front of what is left behind the sender.
pub tail_of_netstrings :
    (payload message rest sender after : Bytes)
    → IsNetstring payload message rest
    → IsNetstring rest sender after
    → make_string_view payload (length payload - length after - 1) (length payload) ≡ b',' ∷ after
tail_of_netstrings payload message rest sender after first second =
    let (a, e) = IsNetstring-comma payload message rest first in
    let (b, e') = IsNetstring-comma rest sender after second in
    let whole : payload ≡ (a ++ b',' ∷ b) ++ b',' ∷ after =
      e ∙ ap (λ (t : Bytes). a ++ b',' ∷ t) e' ∙ sym (append_assoc a (b',' ∷ b) (b',' ∷ after)) in
    rw whole (make_string_view_behind (a ++ b',' ∷ b) after b',')

module _ (text : Text) (address : Address) (laws : TextLaws text) where
  -- What the loop makes of its input, from any mail.
  Reads : ℕ → QmqpMail → Bytes → Type 0
  Reads fuel mail input =
      (rs : List Bytes) × (result : ParseResult) × (parse_recipients text address fuel mail input
        ≡ some (with_recipients mail rs, result))
      × Recipients address (length mail.recipients) input rs result

  Reads-refused :
      (fuel : ℕ) (mail : QmqpMail) (input v rest : Bytes)
      → parse_netstring text input ≡ (some v, rest)
      → IsNetstring input v rest
      → address.verify v ≡ false
      → Reads (suc fuel) mail input
  unfolding Reads parse_recipients add_recipient
  Reads-refused fuel mail input v rest parsed net bad =
      ([], bad_address, ground (arith, append-nil mail.recipients), refused v rest net bad)

  Reads-crowded :
      (fuel : ℕ) (mail : QmqpMail) (input v rest : Bytes)
      → parse_netstring text input ≡ (some v, rest)
      → IsNetstring input v rest
      → address.verify v ≡ true
      → max_recipients ≤ length mail.recipients
      → Reads (suc fuel) mail input
  unfolding Reads parse_recipients add_recipient
  Reads-crowded fuel mail input v rest parsed net good many = (
    [],
    too_many_recipients,
    ground (arith, append-nil mail.recipients),
    crowded v rest net good many,
  )

  Reads-last :
      (fuel : ℕ) (mail : QmqpMail) (input v : Bytes)
      → parse_netstring text input ≡ (some v, [])
      → IsNetstring input v []
      → address.verify v ≡ true
      → length mail.recipients < max_recipients
      → Reads (suc fuel) mail input
  unfolding Reads parse_recipients add_recipient
  Reads-last fuel mail input v parsed net good few =
      (v ∷ [], success, ground arith, last v net good few)

  Reads-more :
      (fuel : ℕ) (mail : QmqpMail) (input v : Bytes) (c : ℕ) (rest : Bytes)
      → parse_netstring text input ≡ (some v, c ∷ rest)
      → IsNetstring input v (c ∷ rest)
      → address.verify v ≡ true
      → length mail.recipients < max_recipients
      → Reads fuel (push_recipient mail v) (c ∷ rest)
      → Reads (suc fuel) mail input
  unfolding Reads parse_recipients add_recipient
  Reads-more fuel mail input v c rest parsed net good few (rs, result, again, spec) =
      let count : length (mail.recipients ++ v ∷ []) ≡ suc (length mail.recipients) =
        omega (arith, length-append mail.recipients (v ∷ [])) in
      (
        v ∷ rs,
        result,
        ground (arith, append_assoc mail.recipients (v ∷ []) rs),
        more v (c ∷ rest) net good few (λ e. cc)
            (subst (λ n. Recipients address n (c ∷ rest) rs result) count spec),
      )

  -- One round on a netstring, from what the next round makes of the rest.
  Reads-round :
      (fuel : ℕ) (mail : QmqpMail) (input v rest : Bytes)
      → parse_netstring text input ≡ (some v, rest)
      → IsNetstring input v rest
      → Reads fuel (push_recipient mail v) rest
      → Reads (suc fuel) mail input
  Reads-round fuel mail input v rest parsed net again = elim (Bool-cases (address.verify v)) [
    | inr bad ↦ Reads-refused fuel mail input v rest parsed net bad
    | inl good ↦ elim (dec_lt (length mail.recipients) max_recipients) [
      | no many ↦ Reads-crowded fuel mail input v rest parsed net good (omega arith)
      | yes few ↦ end rest parsed net again good few
    ]
  ]
    where
      end :
          (rest : Bytes)
          → parse_netstring text input ≡ (some v, rest)
          → IsNetstring input v rest
          → Reads fuel (push_recipient mail v) rest
          → address.verify v ≡ true
          → length mail.recipients < max_recipients
          → Reads (suc fuel) mail input
      end [] parsed net again good few = Reads-last fuel mail input v parsed net good few
      end (c ∷ rest) parsed net again good few =
          Reads-more fuel mail input v c rest parsed net good few again

  -- Enough fuel for the input makes the loop end, as the grammar has it.
  parse_recipients-Reads :
      (fuel : ℕ) (mail : QmqpMail) (input : Bytes) → length input < fuel → Reads fuel mail input
  unfolding parse_recipients add_recipient
  parse_recipients-Reads zero mail input h = absurd (omega arith)
  parse_recipients-Reads (suc fuel) mail input h = elim (parse_netstring_cases text laws input) [
    | inl (refusal, not_net) ↦
        unfold Reads in ([], malformed, ground (arith, append-nil mail.recipients), garbage not_net)
    | inr (v, rest, parsed, net) ↦ Reads-round fuel mail input v rest parsed net (
        parse_recipients-Reads fuel (push_recipient mail v) rest
          (omega (arith, IsNetstring-shorter input v rest net)))
  ]

  Parses : Bytes → Type 0
  Parses payload =
      (mail : QmqpMail) × (result : ParseResult) × (parse text address no_mail payload
        ≡ some (mail, result))
      × Submission address payload mail result

  Parses-sender :
      (payload message rest sender after : Bytes)
      → parse_netstring text payload ≡ (some message, rest)
      → parse_netstring text rest ≡ (some sender, after)
      → IsNetstring payload message rest
      → IsNetstring rest sender after
      → Parses payload
  unfolding Parses Reads parse with_message with_sender
  Parses-sender payload message rest sender after parsed parsed' net net' =
      elim (Bool-cases (address.verify sender)) [
        | inr bad ↦ (
          record no_mail { message = message },
          bad_address,
          ground arith,
          bad_sender message rest sender after net net' bad,
        )
        | inl good ↦
            let mail : QmqpMail = record {
              message = message;
              tail = b',' ∷ after;
              sender = sender;
              recipients = [];
            } in
            let (rs, result, looped, spec) =
              parse_recipients-Reads (suc (length after)) mail after (omega arith) in
            (
              record mail { recipients = rs },
              result,
              ground (arith, tail_of_netstrings payload message rest sender after net net'),
              envelope message rest sender after rs net net' good spec,
            )
      ]

  -- On every payload the parser ends with the result that the grammar calls for, and where that is
  -- success the mail holds the message, the sender, the recipients in their order, and the tail.
  pub parse-Submission :
      (payload : Bytes)
      → (mail : QmqpMail) × (result : ParseResult) × (parse text address no_mail payload
          ≡ some (mail, result))
        × Submission address payload mail result
  unfolding parse with_message with_sender Parses
  parse-Submission payload = elim (parse_netstring_cases text laws payload) [
    | inl (refusal, not_net) ↦ (no_mail, malformed, ground arith, no_message not_net)
    | inr (message, rest, parsed, net) ↦ elim (parse_netstring_cases text laws rest) [
      | inl (refusal, not_net) ↦ (
        record no_mail { message = message },
        malformed,
        ground arith,
        no_sender message rest net not_net,
      )
      | inr (sender, after, parsed', net') ↦
          Parses-sender payload message rest sender after parsed parsed' net net'
    ]
  ]
