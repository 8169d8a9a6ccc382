-- ===== src/Qmqp/Grammar.antt =====
-- The QMQP submission format, independent of the parser: which result each payload calls for.
use qrelay.Common.{
  ℕ, suc, ◌+◌, ◌<◌, ◌≤◌, ◌≡◌, ◌≢◌, true, false, List, [], ◌∷◌, Bytes, All, length, arith,
}
use qrelay.Libcommon.{Address}
use qrelay.Netstring.Grammar.{IsNetstring}
use qrelay.Qmqp.{
  QmqpMail, ParseResult, success, malformed, bad_address, too_many_recipients, max_recipients,
}

-- No netstring stands at the front.
abbrev pub NoNetstring : Bytes → Type 0
NoNetstring input = (v rest : Bytes) → ¬ IsNetstring input v rest

module _ (address : Address) where
  -- `n` recipients came before `input`. The list holds those that are accepted from it.
  pub data Recipients : ℕ → Bytes → List Bytes → ParseResult → Type 0 where
    garbage : {n : ℕ} {input : Bytes} → NoNetstring input → Recipients n input [] malformed
    refused :
        {n : ℕ} {input : Bytes} (v rest : Bytes)
        → IsNetstring input v rest
        → address.verify v ≡ false
        → Recipients n input [] bad_address
    crowded :
        {n : ℕ} {input : Bytes} (v rest : Bytes)
        → IsNetstring input v rest
        → address.verify v ≡ true
        → max_recipients ≤ n
        → Recipients n input [] too_many_recipients
    last :
        {n : ℕ} {input : Bytes} (v : Bytes)
        → IsNetstring input v []
        → address.verify v ≡ true
        → n < max_recipients
        → Recipients n input (v ∷ []) success
    more :
        {n : ℕ} {input : Bytes} {rs : List Bytes} {result : ParseResult} (v rest : Bytes)
        → IsNetstring input v rest
        → address.verify v ≡ true
        → n < max_recipients
        → rest ≢ []
        → Recipients (suc n) rest rs result
        → Recipients n input (v ∷ rs) result

  -- The whole payload: a message, a sender, and recipients. The tail is the sender's comma and
  -- what follows it.
  pub data Submission : Bytes → QmqpMail → ParseResult → Type 0 where
    no_message :
        {payload : Bytes} {mail : QmqpMail}
        → NoNetstring payload
        → Submission payload mail malformed
    no_sender :
        {payload : Bytes} {mail : QmqpMail} (message rest : Bytes)
        → IsNetstring payload message rest
        → NoNetstring rest
        → Submission payload mail malformed
    bad_sender :
        {payload : Bytes} {mail : QmqpMail} (message rest sender after : Bytes)
        → IsNetstring payload message rest
        → IsNetstring rest sender after
        → address.verify sender ≡ false
        → Submission payload mail bad_address
    envelope :
        {payload : Bytes} {result : ParseResult} (message rest sender after : Bytes)
        (rs : List Bytes)
        → IsNetstring payload message rest
        → IsNetstring rest sender after
        → address.verify sender ≡ true
        → Recipients 0 after rs result
        → Submission payload
            (record { message = message; tail = b',' ∷ after; sender = sender; recipients = rs })
            result

  -- What the recipients of a well-formed submission have in common.
  pub Recipients-verified :
      {n : ℕ} {input : Bytes} {rs : List Bytes} {result : ParseResult}
      → Recipients n input rs result
      → All (λ r. address.verify r ≡ true) rs
        × (n ≤ max_recipients → n + length rs ≤ max_recipients)
  Recipients-verified (garbage h) = (tt, λ h. omega arith)
  Recipients-verified (refused v rest net bad) = (tt, λ h. omega arith)
  Recipients-verified (crowded v rest net good many) = (tt, λ h. omega arith)
  Recipients-verified (last v net good few) = ((good, tt), λ h. omega arith)
  Recipients-verified (more v rest net good few left r) =
      let (all_good, bound) = Recipients-verified r in
      ((good, all_good), λ h. omega (arith, bound few))

  pub Recipients-nonempty :
      {n : ℕ} {input : Bytes} {rs : List Bytes} {result : ParseResult}
      → Recipients n input rs result
      → result ≡ success
      → 0 < length rs
  Recipients-nonempty (garbage h) e = cc
  Recipients-nonempty (refused v rest net bad) e = cc
  Recipients-nonempty (crowded v rest net good many) e = cc
  Recipients-nonempty (last v net good few) e = omega arith
  Recipients-nonempty (more v rest net good few left r) e = omega arith
