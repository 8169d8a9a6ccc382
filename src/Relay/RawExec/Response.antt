-- ===== src/Relay/RawExec/Response.antt =====
-- The status and the first byte of what `RawExecRelay` (src/RawExecRelay.cxx) responds.
use qrelay.Common.{ℕ, zero, suc, ◌≤◌, ◌≡◌, true, [], ◌∷◌, arith, Bytes, length, take, ℤ}
use qrelay.Relay.Basic.{IsValidCall, is_status, is_valid_qmqp_response}
use qrelay.Relay.Basic.Response.{exit_response_valid}
use qrelay.Relay.ExitStatus.{w_exit_status}
use qrelay.Relay.RawExec.{set_front, first_byte, status_response, status_call}

pub status_response_valid : (status : ℤ) → is_valid_qmqp_response (status_response status) ≡ true
unfolding status_response
status_response_valid status = ground (arith, exit_response_valid (w_exit_status status))

pub first_byte_status :
    (s : Bytes) → is_valid_qmqp_response s ≡ true → is_status (first_byte s) ≡ true
first_byte_status [] h = cc
first_byte_status (c ∷ s) h = h

-- The buffer with the status in front.
pub buffer_valid :
    (fill : ℕ) (buffer : Bytes) (c : ℕ)
    → 1 ≤ fill
    → 1 ≤ length buffer
    → is_status c ≡ true
    → is_valid_qmqp_response (take fill (set_front buffer c)) ≡ true
buffer_valid zero buffer c f b h = absurd (omega arith)
buffer_valid (suc fill) [] c f b h = absurd (omega arith)
buffer_valid (suc fill) (x ∷ buffer) c f b h = h

pub status_call_valid :
    (status : ℤ) (response : Bytes)
    → is_valid_qmqp_response response ≡ true
    → IsValidCall (status_call status response)
unfolding status_call
status_call_valid status response h = ground arith
