-- ===== src/Relay/Basic/Tests.antt =====
-- A request of `BasicRelay` (src/BasicRelay.cxx) with one header more than the mail.
use qrelay.Common.{◌≡◌, refl, [], ◌∷◌, ◌++◌, some, arith, codes, concat}
use qrelay.Libcommon.Samples.{
  sample_text, sample_text-TextLaws, sample_address, sample_generator,
  sample_generator-GeneratorLaws,
}
use qrelay.Netstring.{parse_netstring}
use qrelay.Qmqp.{QmqpMail, success, no_mail, parse}
use qrelay.Relay.Basic.{make_request, IsValidCall, on_netstring_response}
use qrelay.Relay.Basic.Request.{parse-make_request}
use qrelay.Relay.Basic.Response.{on_netstring_response_valid}

abbrev one_mail : QmqpMail
one_mail = record {
  message = codes "hello";
  tail = codes ",3:b@r,";
  sender = codes "f@o";
  recipients = codes "b@r" ∷ [];
}

one_parsed :
    parse sample_text sample_address no_mail (codes "5:hello,3:f@o,3:b@r,")
    ≡ some (one_mail, success)
unfolding parse parse_netstring
one_parsed = refl

abbrev edited_mail : QmqpMail
edited_mail = record one_mail { message = codes "ello"; sender = codes "@" }

parse-make_request_example :
    parse sample_text sample_address no_mail
      (concat (make_request sample_generator edited_mail (codes "A: b" ∷ [])))
    ≡ some (record edited_mail { message = concat (codes "A: b" ∷ []) ++ codes "ello" }, success)
parse-make_request_example =
    parse-make_request sample_generator sample_generator-GeneratorLaws sample_text sample_address
      sample_text-TextLaws (codes "5:hello,3:f@o,3:b@r,") (codes "ello") (codes "@") one_mail
      (codes "A: b" ∷ []) one_parsed (omega arith, refl) (omega arith)

on_netstring_response_valid_example : IsValidCall (on_netstring_response (codes "hello"))
on_netstring_response_valid_example = on_netstring_response_valid (codes "hello")
