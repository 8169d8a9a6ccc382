-- ===== src/Qmqp/RoundTrip.antt =====
-- `QmqpMail::Parse` (src/djb/QmqpMail.cxx) against the grammar and the printer of the tests: from
-- a submission to its payload and back.
use qrelay.Common.{
  some_injective, decimal, inl, inr, ℕ, zero, suc, ◌+◌, ◌<◌, ◌≤◌, ◌≡◌, refl, sym, ◌∙◌, true, List,
  [], ◌∷◌, ◌++◌, append_assoc, append-nil, none, some, arith, Bytes, All, size_mod, length,
  length-append, subst,
}
use qrelay.Libcommon.{Text, TextLaws, Address}
use qrelay.Netstring.{netstring, parse_netstring}
use qrelay.Netstring.Grammar.{parse_netstring_accepts, parse_netstring_cases}
use qrelay.Netstring.RoundTrip.{
  IsNetstring-shorter, netstring-IsNetstring, print-IsNetstring, netstring-ne-nil,
}
use qrelay.Qmqp.{
  QmqpMail, ParseResult, success, max_recipients, no_mail, push_recipient, add_recipient,
  print_recipients, make_qmqp, parse_recipients, with_sender, with_message, parse,
}
use qrelay.Qmqp.Grammar.{
  NoNetstring, Recipients, garbage, refused, crowded, last, more, Submission, no_message, no_sender,
  bad_sender, envelope,
}
use qrelay.Qmqp.Parse.{parse-Submission, with_recipients, tail_of_netstrings}

-- An address that the parser takes.
abbrev pub Sendable : Address → Bytes → Type 0
Sendable address v = (length v < size_mod) × (address.verify v ≡ true)

module _ (text : Text) (address : Address) (laws : TextLaws text) where
  NoNetstring-parse :
      (input : Bytes) → NoNetstring input → parse_netstring text input ≡ (none, input)
  NoNetstring-parse input h = elim (parse_netstring_cases text laws input) [
    | inl (refusal, _) ↦ refusal
    | inr (v, rest, _, net) ↦ absurd (h v rest net)
  ]

  -- The loop on the recipients of the grammar, with enough fuel.
  Recipients-parse :
      {n : ℕ} {input : Bytes} {rs : List Bytes} {result : ParseResult}
      → Recipients address n input rs result
      → (fuel : ℕ) (mail : QmqpMail) → length mail.recipients ≡ n
      → length input ≤ fuel
      → parse_recipients text address (suc fuel) mail input ≡ some (with_recipients mail rs, result)
  unfolding parse_recipients add_recipient
  Recipients-parse {input = i} (garbage h) fuel mail e enough =
      ground (arith, NoNetstring-parse i h, append-nil mail.recipients)
  Recipients-parse {input = i} (refused v rest net bad) fuel mail e enough =
      ground (arith, parse_netstring_accepts text laws i v rest net, append-nil mail.recipients)
  Recipients-parse {input = i} (crowded v rest net good many) fuel mail e enough =
      ground (arith, parse_netstring_accepts text laws i v rest net, append-nil mail.recipients)
  Recipients-parse {input = i} (last v net good few) fuel mail e enough =
      ground (arith, parse_netstring_accepts text laws i v [] net)
  Recipients-parse {input = i} (more v [] net good few left r) fuel mail e enough =
      absurd (left refl)
  Recipients-parse {input = i} (more v (c ∷ rest) net good few left r) zero mail e enough =
      absurd (omega (arith, IsNetstring-shorter i v (c ∷ rest) net))
  Recipients-parse {input = i} {rs = _ ∷ rs} (more v (c ∷ rest) net good few left r) (suc fuel) mail
        e enough =
      ground (
        arith,
        parse_netstring_accepts text laws i v (c ∷ rest) net,
        Recipients-parse r fuel (push_recipient mail v)
            (omega (arith, length-append mail.recipients (v ∷ [])))
            (omega (arith, IsNetstring-shorter i v (c ∷ rest) net)),
        append_assoc mail.recipients (v ∷ []) rs,
      )

  Submission-parse_as :
      {payload : Bytes} {mail : QmqpMail} {result : ParseResult}
      → Submission address payload mail result
      → result ≡ success
      → parse text address no_mail payload ≡ some (mail, result)
  unfolding parse with_message with_sender
  Submission-parse_as (no_message h) e = cc
  Submission-parse_as (no_sender message rest net h) e = cc
  Submission-parse_as (bad_sender message rest sender after net net' bad) e = cc
  Submission-parse_as {payload = p} (envelope message rest sender after rs net net' good r) e =
      let mail : QmqpMail = record {
        message = message;
        tail = b',' ∷ after;
        sender = sender;
        recipients = [];
      } in
      ground (
        arith,
        parse_netstring_accepts text laws p message rest net,
        parse_netstring_accepts text laws rest sender after net',
        tail_of_netstrings p message rest sender after net net',
        Recipients-parse r (length after) mail refl (omega arith),
      )

  -- A well-formed submission is parsed as such, into the very mail of the grammar.
  pub Submission-parse :
      (payload : Bytes) (mail : QmqpMail)
      → Submission address payload mail success
      → parse text address no_mail payload ≡ some (mail, success)
  Submission-parse payload mail s = Submission-parse_as s refl

  print_recipients-Recipients :
      (n : ℕ) (r : Bytes) (rs : List Bytes)
      → All (Sendable address) (r ∷ rs)
      → n + length (r ∷ rs) ≤ max_recipients
      → Recipients address n (print_recipients (r ∷ rs)) (r ∷ rs) success
  print_recipients-Recipients n r [] good few =
      last r (netstring-IsNetstring r [] good.0.0) good.0.1 (omega arith)
  print_recipients-Recipients n r (q ∷ rs) good few =
      more r (print_recipients (q ∷ rs)) (netstring-IsNetstring r _ good.0.0) good.0.1 (omega arith)
        (netstring-ne-nil q _) (print_recipients-Recipients (suc n) q rs good.1 (omega arith))

  -- A printed submission whose message fits a std::size_t, with a good sender and one to 1024 good
  -- recipients (verified, and of a size that fits), is parsed with success into its parts.
  pub parse-make_qmqp :
      (message sender r : Bytes) (rs : List Bytes)
      → length message < size_mod
      → Sendable address sender
      → All (Sendable address) (r ∷ rs)
      → length (r ∷ rs) ≤ max_recipients
      → parse text address no_mail (make_qmqp message sender (r ∷ rs))
        ≡ some (
          record {
            message = message;
            tail = b',' ∷ print_recipients (r ∷ rs);
            sender = sender;
            recipients = r ∷ rs;
          },
          success,
        )
  unfolding make_qmqp
  parse-make_qmqp message sender r rs fits good all_good few = Submission-parse _ _ (
      envelope message _ sender _ (r ∷ rs) (netstring-IsNetstring message _ fits)
        (netstring-IsNetstring sender _ good.0) good.1
        (print_recipients-Recipients 0 r rs all_good (omega arith)))

  -- What the parser calls a success is a submission of the grammar.
  pub parse_success-Submission :
      (payload : Bytes) (mail : QmqpMail)
      → parse text address no_mail payload ≡ some (mail, success)
      → Submission address payload mail success
  parse_success-Submission payload mail h =
      let (mail', result, parsed, spec) = parse-Submission text address laws payload in
      let same : ◌≡◌ {A = QmqpMail × ParseResult} (mail', result) (mail, success) =
        some_injective (sym parsed ∙ h) in
      subst (λ (p : QmqpMail × ParseResult). Submission address payload p.0 p.1) same spec

  Submission-rebuilt :
      {payload : Bytes} {mail : QmqpMail} {result : ParseResult} (message sender : Bytes)
      → Submission address payload mail result
      → result ≡ success
      → length message < size_mod
      → Sendable address sender
      → Submission address
          (netstring message ++ (decimal (length sender) ++ b':' ∷ (sender ++ mail.tail)))
          (record mail { message = message; sender = sender })
          result
  Submission-rebuilt message sender (no_message h) e fits good = cc
  Submission-rebuilt message sender (no_sender _ _ _ _) e fits good = cc
  Submission-rebuilt message sender (bad_sender _ _ _ _ _ _ _) e fits good = cc
  Submission-rebuilt message sender (envelope _ _ _ after rs _ _ _ r) e fits good =
      envelope message _ sender after rs (netstring-IsNetstring message _ fits)
        (print-IsNetstring sender after good.0) good.1 r

  -- A mail as the parser leaves it can be put behind another message and another good sender: the
  -- parser takes the new payload, with the recipients and the tail of the old.
  pub parse_rebuilt :
      (payload message sender : Bytes) (mail : QmqpMail)
      → parse text address no_mail payload ≡ some (mail, success)
      → length message < size_mod
      → Sendable address sender
      → parse text address no_mail
          (netstring message ++ (decimal (length sender) ++ b':' ∷ (sender ++ mail.tail)))
        ≡ some (record mail { message = message; sender = sender }, success)
  parse_rebuilt payload message sender mail h fits good =
      Submission-parse _ _
        (Submission-rebuilt message sender (parse_success-Submission payload mail h) refl fits good)
