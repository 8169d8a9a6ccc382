-- ===== src/Relay/Basic.antt =====
-- src/BasicRelay.hxx, src/BasicRelay.cxx and src/Handler.hxx: the request that a QMQP relay sends,
-- and what it makes of the answer.
pub mod Request
pub mod Response
mod Tests
use qrelay.Common.{
  ℕ, ◌≡◌, Bool, true, false, ◌||◌, List, [], ◌∷◌, ◌++◌, Bytes, codes, ◌==◌, if◌then◌else◌, length,
}
use qrelay.Libcommon.{Generator}
use qrelay.Qmqp.{QmqpMail}

-- What the exception of an `OnRelayError` call says.
pub data Cause : Type 0 where
  malformed_response netstring_error connect_error start_error read_error write_error : Cause
  waitid_failed : ℕ → Cause
  died_from_signal : ℕ → Bool → Cause
  exited : ℕ → Cause

-- A call of the RelayHandler.
pub data HandlerCall : Type 0 where
  on_relay_response : Bytes → HandlerCall
  on_relay_error : Bytes → Cause → HandlerCall

-- The response of either call.
abbrev pub response_of : HandlerCall → Bytes
response_of (on_relay_response response) = response
response_of (on_relay_error response cause) = response

-- The constructor: the request list. `generate` puts the netstring of headers and message together.
unfoldable pub make_request : Generator → QmqpMail → List Bytes → List Bytes
make_request generator mail additional_headers =
    let request = additional_headers ++ mail.message ∷ [] in
    generator.generate request true
    ++ generator.header (length mail.sender) ∷ mail.sender ∷ mail.tail ∷ []

abbrev pub is_status : ℕ → Bool
is_status c = c == b'K' || c == b'D' || c == b'Z'

-- `IsValidQmqpResponse`.
abbrev pub is_valid_qmqp_response : Bytes → Bool
is_valid_qmqp_response [] = false
is_valid_qmqp_response (c ∷ payload) = is_status c

-- The response of a call begins with K, D or Z.
abbrev pub IsValidCall : HandlerCall → Type 0
IsValidCall call = is_valid_qmqp_response (response_of call) ≡ true

-- `BasicRelay::OnNetstringResponse`.
unfoldable pub on_netstring_response : Bytes → HandlerCall
on_netstring_response payload =
    if is_valid_qmqp_response payload
    then on_relay_response payload
    else on_relay_error (codes "Zmalformed relay response") malformed_response

-- `BasicRelay::OnNetstringError`.
unfoldable pub on_netstring_error : HandlerCall
on_netstring_error = on_relay_error (codes "Zrelay failed") netstring_error
