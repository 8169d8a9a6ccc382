-- ===== src/Common/Decimal.antt =====
-- Decimal print of a number (std::to_string, fmt's `{}`).
use Prim.Native.Nat.{ℕ, zero, suc, ◌+◌, ◌-◌, ◌*◌, ◌/◌, ◌%◌, ◌^◌, ◌≤◌, ◌<◌}
use mathlib.Core.Path.{◌≡◌, refl, sym, ap, ◌∙◌}
use mathlib.Core.Logic.{◌≢◌}
use mathlib.Core.List.{[], ◌∷◌, ◌++◌, append_assoc, append-nil}
use native.Mathlib.Omega.{arith}
use native.Mathlib.Decide.{dec_lt}
use native.Mathlib.Numerals.{unary_clauses}
use qrelay.Common.Tests.{ltb, if◌then◌else◌}
use qrelay.Common.Lists.{All, All-append, get_or, length, length-append}
use qrelay.Common.Strings.{Bytes, IsDigit, value}

-- One digit for each round; a number below the fuel has all its digits written.
digits : ℕ → ℕ → Bytes
digits zero n = []
digits (suc fuel) n =
    let more = digits fuel (n / 10) ++ (b'0' + n % 10) ∷ [] in
    if ltb n 10 then (b'0' + n) ∷ [] else more

unfoldable pub decimal : ℕ → Bytes
unfolding digits
decimal n = digits (suc n) n

-- Fuel above the number makes no difference.
digits_enough : (f g n : ℕ) → n < f → n < g → digits f n ≡ digits g n
unfolding digits
digits_enough zero g n p q = absurd (omega arith)
digits_enough (suc f) zero n p q = absurd (omega arith)
digits_enough (suc f) (suc g) n p q = ground (arith, digits_enough f g (n / 10))

pub decimal_small : (n : ℕ) → n < 10 → decimal n ≡ (b'0' + n) ∷ []
unfolding decimal
decimal_small n h = ground arith

pub decimal_step : (n : ℕ) → 10 ≤ n → decimal n ≡ decimal (n / 10) ++ (b'0' + n % 10) ∷ []
unfolding decimal
decimal_step n h = ground (arith, digits_enough n (suc (n / 10)) (n / 10))

digits-IsDigit : (f n : ℕ) → All IsDigit (digits f n)
unfolding digits
digits-IsDigit zero n = tt
digits-IsDigit (suc f) n =
    let here : All IsDigit ((b'0' + n % 10) ∷ []) = omega arith in
    ground (
      arith,
      All-append IsDigit (digits f (n / 10)) ((b'0' + n % 10) ∷ []) (digits-IsDigit f (n / 10))
          here,
    )

pub decimal-IsDigit : (n : ℕ) → All IsDigit (decimal n)
unfolding decimal
decimal-IsDigit n = digits-IsDigit (suc n) n

value-append_digit : (s : Bytes) (n c : ℕ) → value n (s ++ c ∷ []) ≡ value n s * 10 + (c - b'0')
value-append_digit [] n c = refl
value-append_digit (d ∷ s) n c = value-append_digit s (n * 10 + (d - b'0')) c

value-digits : (f n : ℕ) → n < f → value 0 (digits f n) ≡ n
unfolding digits
value-digits zero n h = absurd (omega arith)
value-digits (suc f) n h =
    ground
      (arith, value-append_digit (digits f (n / 10)) 0 (b'0' + n % 10), value-digits f (n / 10))

-- The digits of a number spell it.
pub value-decimal : (n : ℕ) → value 0 (decimal n) ≡ n
unfolding decimal
value-decimal n = value-digits (suc n) n (omega arith)

front-append : (s t : Bytes) (c : ℕ) → 0 < get_or s 0 0 → get_or (s ++ t) 0 c ≡ get_or s 0 0
front-append [] t c h = absurd (omega arith)
front-append (x ∷ s) t c h = refl

front-digits : (f n : ℕ) → n < f → 0 < n → b'0' < get_or (digits f n) 0 0
unfolding digits
front-digits zero n h p = absurd (omega arith)
front-digits (suc f) n h p =
    ground
      (arith, front-digits f (n / 10), front-append (digits f (n / 10)) ((b'0' + n % 10) ∷ []) 0)

-- Only zero is written with a zero in front.
pub front-decimal : (n : ℕ) → 0 < n → b'0' < get_or (decimal n) 0 0
unfolding decimal
front-decimal n = front-digits (suc n) n (omega arith)

pub decimal-ne-nil : (n : ℕ) → decimal n ≢ []
decimal-ne-nil n e = ground (arith, value-decimal n, front-decimal n, decimal_small n)

decimal_shift : (m c : ℕ) → 0 < m → IsDigit c → decimal (m * 10 + (c - b'0')) ≡ decimal m ++ c ∷ []
decimal_shift m c p d =
    let tens : (m * 10 + (c - b'0')) / 10 ≡ m = omega arith in
    let last : b'0' + (m * 10 + (c - b'0')) % 10 ≡ c = omega arith in
    decimal_step (m * 10 + (c - b'0')) (omega arith) ∙ rw (tens, last)

decimal-value_behind :
    (s : Bytes) (m : ℕ) → 0 < m → All IsDigit s → decimal (value m s) ≡ decimal m ++ s
decimal-value_behind [] m p d = sym (append-nil _)
decimal-value_behind (c ∷ s) m p d =
    decimal-value_behind s (m * 10 + (c - b'0')) (omega arith) d.1
    ∙ ap (λ (t : Bytes). t ++ s) (decimal_shift m c p d.0)
    ∙ append_assoc (decimal m) (c ∷ []) s

-- A text of digits with no zero in front is the print of its value.
pub decimal-value :
    (c : ℕ) (s : Bytes) → c ≢ b'0' → All IsDigit (c ∷ s) → decimal (value 0 (c ∷ s)) ≡ c ∷ s
decimal-value c s h d =
    let first : 0 * 10 + (c - b'0') ≡ c - b'0' = omega arith in
    let back : b'0' + (c - b'0') ≡ c = omega arith in
    rw first (
      decimal-value_behind s (c - b'0') (omega arith) d.1
      ∙ ap (λ (t : Bytes). t ++ s) (decimal_small (c - b'0') (omega arith) ∙ ap (λ x. x ∷ []) back))

-- Digits that spell zero are zeros.
pub zeros-of-value :
    (s : Bytes) (n : ℕ) → All IsDigit s → value n s ≡ 0 → (n ≡ 0) × All (λ c. c ≡ b'0') s
zeros-of-value [] n d e = (e, tt)
zeros-of-value (c ∷ s) n d e =
    let (head, rest) = zeros-of-value s (n * 10 + (c - b'0')) d.1 e in
    (omega arith, (omega arith, rest))

pub value-of-zeros : (s : Bytes) → All (λ c. c ≡ b'0') s → value 0 s ≡ 0
value-of-zeros [] z = refl
value-of-zeros (c ∷ s) z =
    let none_yet : 0 * 10 + (c - b'0') ≡ 0 = omega arith in rw none_yet (value-of-zeros s z.1)

pub zeros-IsDigit : (s : Bytes) → All (λ c. c ≡ b'0') s → All IsDigit s
zeros-IsDigit [] z = tt
zeros-IsDigit (c ∷ s) z = (omega arith, zeros-IsDigit s z.1)

-- A number below a power of ten has no more digits than the power says.
pub length-decimal-le : (k n : ℕ) → n < 10 ^ suc k → length (decimal n) ≤ suc k
length-decimal-le zero n h = ground (arith, decimal_small n)
length-decimal-le (suc k) n h = elim (dec_lt n 10) [
  | yes small ↦ ground (arith, decimal_small n small)
  | no large ↦
      let big : 10 ≤ n = omega arith in
      let power : 10 ^ suc (suc k) ≡ 10 ^ suc k * 10 = simp unary_clauses in
      let quotient : n / 10 < 10 ^ suc k = omega arith in
      rw (decimal_step n big) (
        omega (
          arith,
          length-append (decimal (n / 10)) ((b'0' + n % 10) ∷ []),
          length-decimal-le k (n / 10) quotient,
        ))
]
