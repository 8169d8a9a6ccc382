-- ===== src/Netstring/RoundTrip.antt =====
-- `ParseNetstring` (src/djb/NetstringParser.cxx) against the printer of test/TestQmqpMail.cxx.
use qrelay.Common.{
  ℕ, ◌<◌, ◌≡◌, ◌≢◌, ◌⊎◌, inl, inr, refl, sym, ap, ◌∙◌, [], ◌∷◌, ◌++◌, append_assoc, some, arith,
  Bytes, All, size_mod, length, length-append, decimal, decimal-IsDigit, value-decimal,
  front-decimal, decimal-ne-nil, decimal-value, zeros-of-value, value-of-zeros, zeros-IsDigit,
}
use qrelay.Libcommon.{Text, TextLaws}
use qrelay.Netstring.{netstring, parse_netstring}
use qrelay.Netstring.Grammar.{
  IsSize, IsNetstring, parse_netstring_accepted, parse_netstring_accepts,
}

decimal-IsSize : (n : ℕ) → n < size_mod → IsSize (decimal n) n
decimal-IsSize n h = record {
  nonempty = decimal-ne-nil n;
  digits = decimal-IsDigit n;
  spells = value-decimal n;
  fits = h;
  unpadded = ground (arith, front-decimal n);
}

pub print-IsNetstring :
    (v rest : Bytes)
    → length v < size_mod
    → IsNetstring (decimal (length v) ++ b':' ∷ (v ++ b',' ∷ rest)) v rest
print-IsNetstring v rest h = record {
  size = decimal (length v);
  is_size = decimal-IsSize (length v) h;
  layout = refl;
}

pub netstring-append :
    (v rest : Bytes) → netstring v ++ rest ≡ decimal (length v) ++ b':' ∷ (v ++ b',' ∷ rest)
unfolding netstring
netstring-append v rest = simp append_assoc

pub netstring-IsNetstring :
    (v rest : Bytes) → length v < size_mod → IsNetstring (netstring v ++ rest) v rest
netstring-IsNetstring v rest h = rw netstring-append (print-IsNetstring v rest h)

pub netstring-ne-nil : (v rest : Bytes) → netstring v ++ rest ≢ []
unfolding netstring
netstring-ne-nil v rest e = absurd (
    omega (
      arith,
      ap length e,
      length-append (decimal (length v) ++ b':' ∷ (v ++ b',' ∷ [])) rest,
      length-append (decimal (length v)) (b':' ∷ (v ++ b',' ∷ [])),
    ))

-- A size field is the print of its number, or all zeros.
IsSize-decimal :
    (s : Bytes) (n : ℕ) → IsSize s n → (s ≡ decimal n) ⊎ ((n ≡ 0) × All (λ c. c ≡ b'0') s)
IsSize-decimal [] n z = absurd (z.nonempty refl)
IsSize-decimal (c ∷ s) n z = elim z.unpadded [
  | inl none_left ↦ inr (none_left, (zeros-of-value (c ∷ s) 0 z.digits (z.spells ∙ none_left)).1)
  | inr lead ↦ inl (sym (decimal-value c s lead z.digits) ∙ ap decimal z.spells)
]

-- A netstring consumes at least its comma, and ends in it.
pub IsNetstring-comma :
    (input v rest : Bytes)
    → IsNetstring input v rest
    → (before : Bytes) × (input ≡ before ++ b',' ∷ rest)
IsNetstring-comma input v rest net =
    (net.size ++ b':' ∷ v, net.layout ∙ sym (append_assoc net.size (b':' ∷ v) (b',' ∷ rest)))

pub IsNetstring-shorter :
    (input v rest : Bytes) → IsNetstring input v rest → length rest < length input
IsNetstring-shorter input v rest net =
    let (before, e) = IsNetstring-comma input v rest net in
    omega (arith, ap length e, length-append before (b',' ∷ rest))

empty_of_length : (v : Bytes) → length v ≡ 0 → v ≡ []
empty_of_length [] h = refl
empty_of_length (c ∷ v) h = absurd (omega arith)

module _ (text : Text) (laws : TextLaws text) where
  -- A printed value of a size that fits a std::size_t is read back, whatever follows it.
  pub parse_netstring-netstring :
      (v rest : Bytes)
      → length v < size_mod
      → parse_netstring text (netstring v ++ rest) ≡ (some v, rest)
  parse_netstring-netstring v rest h =
      parse_netstring_accepts text laws _ v rest (netstring-IsNetstring v rest h)

  -- If a value is read, then it stood there as the printer writes it, or it is empty and its size
  -- is written as one or more zeros.
  pub netstring_unless_padded :
      (input v rest : Bytes)
      → parse_netstring text input ≡ (some v, rest)
      → (input ≡ netstring v ++ rest)
        ⊎ ((v ≡ [])
            × ((zeros : Bytes) × (zeros ≢ [])
                × All (λ c. c ≡ b'0') zeros
                × (input ≡ zeros ++ b':' ∷ b',' ∷ rest)))
  netstring_unless_padded input v rest h =
      let net = parse_netstring_accepted text laws input v rest h in
      elim (IsSize-decimal net.size (length v) net.is_size) [
        | inl printed ↦ inl (net.layout ∙ rw printed (sym (netstring-append v rest)))
        | inr (none_left, zeros) ↦
            let e = empty_of_length v none_left in
            inr (
              e,
              (
                net.size,
                net.is_size.nonempty,
                zeros,
                net.layout ∙ ap (λ (t : Bytes). net.size ++ b':' ∷ (t ++ b',' ∷ rest)) e,
              ),
            )
      ]

  -- With one or more zeros for its size, an empty value is taken: the test against a leading zero
  -- lets it through.
  pub parse_netstring_zeros :
      (zeros rest : Bytes)
      → zeros ≢ []
      → All (λ c. c ≡ b'0') zeros
      → parse_netstring text (zeros ++ b':' ∷ b',' ∷ rest) ≡ (some [], rest)
  parse_netstring_zeros zeros rest h z = parse_netstring_accepts text laws _ [] rest (record {
    size = zeros;
    is_size = record {
      nonempty = h;
      digits = zeros-IsDigit zeros z;
      spells = value-of-zeros zeros z;
      fits = omega arith;
      unpadded = inl refl;
    };
    layout = refl;
  })
