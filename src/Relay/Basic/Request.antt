-- ===== src/Relay/Basic/Request.antt =====
-- The request that `BasicRelay`'s constructor makes (src/BasicRelay.cxx), on the wire, and
-- `QmqpMail::Parse`.
use qrelay.Common.{
  ◌<◌, ◌≡◌, List, ◌∷◌, ◌++◌, append_assoc, append-nil, some, Bytes, size_mod, length, concat,
  concat-append, decimal,
}
use qrelay.Libcommon.{Text, TextLaws, Address, Generator, GeneratorLaws}
use qrelay.Netstring.{netstring}
use qrelay.Netstring.RoundTrip.{netstring-append}
use qrelay.Qmqp.{QmqpMail, success, no_mail, parse}
use qrelay.Qmqp.RoundTrip.{Sendable, parse_rebuilt}
use qrelay.Relay.Basic.{make_request}

module _ (generator : Generator) (laws : GeneratorLaws generator) where
  -- The bytes on the wire: one netstring of the headers and the message, the sender's netstring
  -- with the comma that the tail begins with, and the rest of the tail.
  pub concat-make_request :
      (mail : QmqpMail) (headers : List Bytes)
      → concat (make_request generator mail headers)
        ≡ netstring (concat headers ++ mail.message)
          ++ (decimal (length mail.sender) ++ b':' ∷ (mail.sender ++ mail.tail))
  unfolding make_request
  concat-make_request mail headers = simp (
    netstring-append, concat-append, laws.generate_comma, laws.header_lem, append_assoc, append-nil,
  )

  -- For a mail that the parser took, with another message, another sender that is good, and
  -- additional headers that fit a std::size_t with the message: the bytes of the relay's request
  -- are parsed with success, into the mail with that sender and with the message behind the
  -- headers.
  pub parse-make_request :
      (text : Text) (address : Address) (text_laws : TextLaws text)
      → (payload message sender : Bytes) (mail : QmqpMail) (headers : List Bytes)
      → parse text address no_mail payload ≡ some (mail, success)
      → Sendable address sender
      → length (concat headers ++ message) < size_mod
      → let edited : QmqpMail = record mail { message = message; sender = sender } in
        parse text address no_mail (concat (make_request generator edited headers))
        ≡ some (record edited { message = concat headers ++ message }, success)
  parse-make_request text address text_laws payload message sender mail headers h good fits =
      rw (concat-make_request (record mail { message = message; sender = sender }) headers)
        (parse_rebuilt text address text_laws payload _ sender mail h fits good)
