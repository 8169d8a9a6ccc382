-- ===== src/Qmqp/Tests.antt =====
-- `QmqpMail::Parse` on payloads of test/TestQmqpMail.cxx's kind.
use qrelay.Common.{◌≡◌, refl, [], ◌∷◌, Option, none, some, arith, Bytes, codes}
use qrelay.Libcommon.Samples.{sample_text, sample_text-TextLaws, sample_address}
use qrelay.Netstring.{parse_netstring}
use qrelay.Qmqp.{
  QmqpMail, ParseResult, success, malformed, bad_address, no_mail, print_recipients, make_qmqp,
  parse,
}
use qrelay.Qmqp.Grammar.{Submission}
use qrelay.Qmqp.Parse.{parse-Submission}
use qrelay.Qmqp.RoundTrip.{parse-make_qmqp, parse_success-Submission}

abbrev two_recipients : Bytes
two_recipients = codes "5:hello,3:f@o,3:b@r,3:b@z,"

abbrev two_mail : QmqpMail
two_mail = record {
  message = codes "hello";
  tail = codes ",3:b@r,3:b@z,";
  sender = codes "f@o";
  recipients = codes "b@r" ∷ codes "b@z" ∷ [];
}

two_parsed : parse sample_text sample_address no_mail two_recipients ≡ some (two_mail, success)
unfolding parse parse_netstring
two_parsed = refl

abbrev result_of : Option (QmqpMail × ParseResult) → Option ParseResult
result_of none = none
result_of (some (mail, result)) = some result

no_recipient_malformed :
    result_of (parse sample_text sample_address no_mail (codes "5:hello,3:f@o,")) ≡ some malformed
unfolding parse parse_netstring
no_recipient_malformed = refl

bad_recipient :
    result_of (parse sample_text sample_address no_mail (codes "5:hello,3:f@o,3:foo,"))
    ≡ some bad_address
unfolding parse parse_netstring
bad_recipient = refl

parse-Submission_example :
    (mail : QmqpMail) × (result : ParseResult) × (parse sample_text sample_address no_mail
        two_recipients
      ≡ some (mail, result))
    × Submission sample_address two_recipients mail result
parse-Submission_example =
    parse-Submission sample_text sample_address sample_text-TextLaws two_recipients

parse_success-Submission_example : Submission sample_address two_recipients two_mail success
parse_success-Submission_example =
    parse_success-Submission sample_text sample_address sample_text-TextLaws two_recipients two_mail
      two_parsed

parse-make_qmqp_example :
    parse sample_text sample_address no_mail
      (make_qmqp (codes "hello") (codes "f@o") (codes "b@r" ∷ codes "b@z" ∷ []))
    ≡ some (
      record {
        message = codes "hello";
        tail = b',' ∷ print_recipients (codes "b@r" ∷ codes "b@z" ∷ []);
        sender = codes "f@o";
        recipients = codes "b@r" ∷ codes "b@z" ∷ [];
      },
      success,
    )
parse-make_qmqp_example =
    parse-make_qmqp sample_text sample_address sample_text-TextLaws (codes "hello") (codes "f@o")
      (codes "b@r") (codes "b@z" ∷ []) (omega arith) (omega arith, refl)
      ((omega arith, refl), ((omega arith, refl), tt)) (omega arith)
