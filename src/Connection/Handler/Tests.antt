-- ===== src/Connection/Handler/Tests.antt =====
-- A connection (src/Connection.cxx) from a client that submits one mail.
use qrelay.Common.{
  pos, ◌≡◌, ◌≢◌, ◌≤◌, ◌⊎◌, refl, true, List, [], ◌∷◌, Option, none, some, arith, Bytes, codes,
  length, All,
}
use qrelay.Libcommon.Samples.{
  sample_text, sample_text-TextLaws, sample_address, sample_strip, sample_truncate,
}
use qrelay.Netstring.{parse_netstring}
use qrelay.Qmqp
use qrelay.Qmqp.{QmqpMail, ParseResult, success, no_mail}
use qrelay.Qmqp.Grammar.{Submission}
use qrelay.MutableMail
use qrelay.MutableMail.{MutableMail, make_mutable_mail}
use qrelay.Action.{Action, make_action, connect}
use qrelay.Connection.{
  Connection, Cred, received, lua, relaying, sends, fails, make_connection, finish, on_error,
}
use qrelay.Connection.Finish.{logged, closed, answered, finish_lem, client_error_lem}
use qrelay.Connection.Handler.{
  Edit, inserts_header, sets_sender, requests, step, on_request, received_line,
  received_buffer_size,
}
use qrelay.Connection.Handler.Received.{received_line_fits}
use qrelay.Connection.Handler.Invariant.{IsValidResponse}
use qrelay.Connection.Handler.Request.{stripped, refusal, on_request_outcome}
use qrelay.Connection.Handler.Steps.{still, moves, connection_answers_once, connection_step-ne-none}

abbrev peer : Option Cred
peer = some (record { pid = 7; uid = 42; gid = 100 })

abbrev hello_payload : Bytes
hello_payload = codes "6: hello,3:f@o,3:b@r,"

abbrev hello_mail : QmqpMail
hello_mail = record {
  message = codes " hello";
  tail = codes ",3:b@r,";
  sender = codes "f@o";
  recipients = codes "b@r" ∷ [];
}

hello_taken :
    Qmqp.parse sample_text sample_address no_mail hello_payload ≡ some (hello_mail, success)
unfolding Qmqp.parse parse_netstring
hello_taken = refl

abbrev two_edits : List Edit
two_edits = inserts_header (codes "A") (codes "b") ∷ sets_sender (codes "x@y") ∷ []

abbrev connect_action : Action
connect_action = record make_action { type = connect; timeout = pos 1 }

on_request_outcome_example :
    (mail : QmqpMail) × (result : ParseResult) × Submission sample_address hello_payload mail result
    × (((result ≡ success)
          × (on_request sample_truncate sample_text sample_address sample_strip
                (make_connection peer true)
                hello_payload
                sends
              ≡ some (record (make_connection peer true) {
                mail_ptr = some (stripped sample_strip hello_payload mail);
                state = lua;
              })))
        ⊎ ((result ≢ success)
            × (on_request sample_truncate sample_text sample_address sample_strip
                  (make_connection peer true)
                  hello_payload
                  sends
                ≡ some (
                    closed sample_truncate (
                      answered sample_truncate
                        (record (make_connection peer true) { state = received })
                        (refusal result))))))
on_request_outcome_example =
    on_request_outcome sample_truncate sample_text sample_address sample_strip sample_text-TextLaws
      (make_connection peer true) hello_payload sends refl refl (λ e. cc)

abbrev refused : Connection
refused = record (make_connection peer true) {
  state = received;
  deleted = true;
  responses = codes "Dmalformed input" ∷ [];
}

garbage_refused :
    step sample_truncate sample_text sample_address sample_strip
      (make_connection peer true)
      (requests (codes "garbage"))
      sends
    ≡ some refused
unfolding step Qmqp.parse parse_netstring MutableMail.parse
garbage_refused = refl

connection_answers_once_example :
    (length refused.responses ≤ 1)
    × All IsValidResponse refused.responses
    × (length refused.logs ≤ 1)
connection_answers_once_example =
    connection_answers_once sample_truncate sample_text sample_address sample_strip
      sample_text-TextLaws peer true refused
      (moves (requests (codes "garbage")) sends still refl refl (λ e. cc) garbage_refused)

connection_step-ne-none_example :
    step sample_truncate sample_text sample_address sample_strip
      (make_connection peer true)
      (requests hello_payload)
      fails
    ≢ none
connection_step-ne-none_example =
    connection_step-ne-none sample_truncate sample_text sample_address sample_strip
      sample_text-TextLaws peer true (make_connection peer true) (requests hello_payload) fails
      still refl refl (λ e. cc)

abbrev relaying_connection : Connection
relaying_connection = record (make_connection peer true) {
  state = relaying;
  mail_ptr = some (stripped sample_strip hello_payload hello_mail);
}

finish_lem_example :
    finish sample_truncate relaying_connection (codes "Kok") fails
    ≡ some (
        closed sample_truncate (
          answered sample_truncate
            (logged sample_truncate relaying_connection (codes "ok") relaying_connection.mail_ptr)
            (codes "Kok")))
finish_lem_example =
    finish_lem sample_truncate relaying_connection relaying_connection.mail_ptr b'K' (codes "ok")
      fails refl refl refl (λ e. cc)

client_error_lem_example :
    on_error sample_truncate relaying_connection
    ≡ some (
        closed sample_truncate (
          logged sample_truncate relaying_connection
            (codes "client error")
            relaying_connection.mail_ptr))
client_error_lem_example =
    client_error_lem sample_truncate relaying_connection relaying_connection.mail_ptr refl refl

received_line_fits_example :
    length (received_line (record { pid = 7; uid = 42; gid = 100 })) ≤ received_buffer_size
received_line_fits_example =
    received_line_fits (record { pid = 7; uid = 42; gid = 100 }) (omega arith) (omega arith)
