-- ===== src/Relay/ExitStatus.antt =====
-- src/ExitStatus.hxx, and the wait status macros of the C library that its callers use.
use qrelay.Common.{
  ℕ, suc, ◌/◌, ◌%◌, ℤ, pos, negsuc, Bool, true, false, ◌&&◌, ◌||◌, not, Bytes, codes, ◌==◌,
  if◌then◌else◌,
}

-- A child's end as `OnChildProcessExit` learns it: `status < 0` is a failed waitid().
abbrev pub is_negative : ℤ → Bool
is_negative (pos n) = false
is_negative (negsuc n) = true

-- `-status`, for a status below zero.
abbrev pub negated : ℤ → ℕ
negated (pos n) = 0
negated (negsuc n) = suc n

-- The bits of a status that is not negative.
abbrev pub bits : ℤ → ℕ
bits (pos n) = n
bits (negsuc n) = 0

abbrev pub w_term_sig : ℤ → ℕ
w_term_sig status = bits status % 128

-- `((signed char) ((status & 0x7f) + 1) >> 1) > 0`: neither an exit nor a stop.
abbrev pub w_if_signaled : ℤ → Bool
w_if_signaled status = not (w_term_sig status == 0) && not (w_term_sig status == 127)

abbrev pub w_exit_status : ℤ → ℕ
w_exit_status status = bits status / 256 % 256

abbrev pub w_core_dump : ℤ → Bool
w_core_dump status = not (bits status / 128 % 2 == 0)

-- EX_USAGE, EX_OSFILE, EX_NOPERM and EX_CONFIG of sysexits.h.
abbrev is_permanent : ℕ → Bool
is_permanent status = status == 64 || status == 72 || status == 77 || status == 78

-- `ExitStatusToQmqpResponse`.
unfoldable pub exit_status_to_qmqp_response : ℕ → Bytes
exit_status_to_qmqp_response status =
    if is_permanent status then codes "Dinternal server error" else codes "Zinternal server error"
