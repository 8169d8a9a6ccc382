-- ===== src/Connection/Handler/Received.antt =====
-- The "Received" line of src/Connection.cxx and the buffer that it is written to.
use qrelay.Common.{
  ◌^◌, ◌≤◌, ◌<◌, [], ◌∷◌, ◌++◌, arith, Bytes, length, length-append, decimal, length-decimal-le,
  codes,
}
use qrelay.Connection.{Cred}
use qrelay.Connection.Handler.{received_line, received_buffer_size}

-- For process and user ids below 2 ^ 32 the "Received" line fits `received_buffer`.
pub received_line_fits :
    (cred : Cred)
    → cred.pid < 2 ^ 32
    → cred.uid < 2 ^ 32
    → length (received_line cred) ≤ received_buffer_size
unfolding received_line
received_line_fits cred pid uid =
    let end : Bytes = codes " with QMQP" ++ 13 ∷ 10 ∷ [] in
    omega (
      arith,
      length-decimal-le 9 cred.pid (omega arith),
      length-decimal-le 9 cred.uid (omega arith),
      length-append (decimal cred.pid) (codes " UID=" ++ (decimal cred.uid ++ end)),
      length-append (decimal cred.uid) end,
    )
