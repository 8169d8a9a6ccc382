-- ===== src/Relay/Basic/Response.antt =====
-- The responses that `BasicRelay` (src/BasicRelay.cxx) and src/ExitStatus.hxx give the handler.
use qrelay.Common.{ℕ, ◌≡◌, true, Bytes, arith}
use qrelay.Relay.Basic.{is_valid_qmqp_response, IsValidCall, on_netstring_response}
use qrelay.Relay.ExitStatus.{exit_status_to_qmqp_response}

-- What the handler is given always begins with K, D or Z.
pub on_netstring_response_valid : (payload : Bytes) → IsValidCall (on_netstring_response payload)
unfolding on_netstring_response
on_netstring_response_valid payload = ground arith

pub exit_response_valid :
    (status : ℕ) → is_valid_qmqp_response (exit_status_to_qmqp_response status) ≡ true
unfolding exit_status_to_qmqp_response
exit_response_valid status = ground arith
