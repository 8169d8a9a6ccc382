-- ===== src/Relay/Exec/Order.antt =====
-- The program's answer and its exit, in either order (src/ExecRelay.cxx).
use mathlib.Core.List.{head?}
use qrelay.Common.{ℕ, ℤ, ◌≡◌, true, false, [], ◌∷◌, none, some, arith, Bytes}
use qrelay.Libcommon.{Arrays}
use qrelay.Relay.Basic.{is_valid_qmqp_response, on_relay_response}
use qrelay.Relay.ExitStatus.{is_negative, w_if_signaled, w_exit_status}
use qrelay.Relay.Exec.{ExecRelay, on_child_process_exit, on_response}

-- The child runs, nothing was answered, and the handler was not called.
pub record IsWaiting (r : ExecRelay) : Type 0 where
  pub child : r.pidfd ≡ true
  pub no_answer : r.deferred_response ≡ none
  pub no_call : r.calls ≡ []

module _ (arrays : Arrays) where
  -- For a program that runs, without an answer or a call yet: whether its non-empty answer or its
  -- exit is learned first, the first call of the handler is the same, for every exit status.
  pub response_exit_order :
      (r : ExecRelay) (c : ℕ) (payload : Bytes) (status : ℤ)
      → IsWaiting r
      → head? (on_child_process_exit arrays (on_response r (c ∷ payload)) status).calls
        ≡ head? (on_response (on_child_process_exit arrays r status) (c ∷ payload)).calls
  unfolding on_response on_child_process_exit
  response_exit_order r c payload status w = ground (arith, arrays.some_bytes c payload)

  -- For a program that runs, without an answer or a call yet, which gives a non-empty answer and
  -- then exits: if the first call of the handler is a response, then it is the program's answer, a
  -- valid one, and the program exited with status 0.
  pub passed_on_success :
      (r : ExecRelay) (c : ℕ) (payload passed : Bytes) (status : ℤ)
      → IsWaiting r
      → head? (on_child_process_exit arrays (on_response r (c ∷ payload)) status).calls
        ≡ some (on_relay_response passed)
      → (passed ≡ c ∷ payload)
        × (is_valid_qmqp_response passed ≡ true)
        × (is_negative status ≡ false)
        × (w_if_signaled status ≡ false)
        × (w_exit_status status ≡ 0)
  unfolding on_response on_child_process_exit
  passed_on_success r c payload passed status w h = ground (arith, arrays.some_bytes c payload)

  -- For a program that runs, without an answer or a call yet, which gives a valid answer and then
  -- exits with status 0, the handler gets one call, with that answer as the response.
  pub success_passed_on :
      (r : ExecRelay) (c : ℕ) (payload : Bytes) (status : ℤ)
      → IsWaiting r
      → is_negative status ≡ false
      → w_if_signaled status ≡ false
      → w_exit_status status ≡ 0
      → is_valid_qmqp_response (c ∷ payload) ≡ true
      → (on_child_process_exit arrays (on_response r (c ∷ payload)) status).calls
        ≡ on_relay_response (c ∷ payload) ∷ []
  unfolding on_response on_child_process_exit
  success_passed_on r c payload status w n s e v = ground (arith, arrays.some_bytes c payload)
