-- ===== src/Netstring/Grammar.antt =====
-- The format of netstrings, and `ParseNetstring` (src/djb/NetstringParser.cxx) against it.
use qrelay.Common.{
  subst, ℕ, ◌<◌, ◌≡◌, ◌≢◌, ◌⊎◌, inl, inr, refl, sym, ap, ◌∙◌, [], ◌∷◌, ◌++◌, Option, none, some,
  Option-cases, arith, Bytes, IsDigit, Lacks, All, value, size_mod, length, ℕ_discrete, cut_lem,
  length-take_lt, take-length_append, drop_past, get_or-length_append, length-append,
}
use qrelay.Libcommon.{Text, TextLaws}
use qrelay.Netstring.{front, take_value, with_size, with_rest, parse_netstring}

-- A size field that the parser takes for `n`: digits, a zero in front only where all are zeros.
pub record IsSize (s : Bytes) (n : ℕ) : Type 0 where
  pub nonempty : s ≢ []
  pub digits : All IsDigit s
  pub spells : value 0 s ≡ n
  pub fits : n < size_mod
  pub unpadded : (n ≡ 0) ⊎ (front s ≢ b'0')

-- `input` is a size field, a colon, the value, a comma, and `rest`.
pub record IsNetstring (input v rest : Bytes) : Type 0 where
  pub size : Bytes
  pub is_size : IsSize size (length v)
  pub layout : input ≡ size ++ b':' ∷ (v ++ b',' ∷ rest)

-- A text without a byte, or the text up to it.
data Cut (sep : ℕ) (s : Bytes) : Type 0 where
  missing : Lacks sep s → Cut sep s
  found : (a b : Bytes) → Lacks sep a → s ≡ a ++ sep ∷ b → Cut sep s

Cut-behind : (sep c : ℕ) (s : Bytes) → c ≢ sep → Cut sep s → Cut sep (c ∷ s)
Cut-behind sep c s h (missing l) = missing (h, l)
Cut-behind sep c s h (found a b l e) = found (c ∷ a) b (h, l) (ap (◌∷◌ c) e)

Cut-cases : (sep : ℕ) (s : Bytes) → Cut sep s
Cut-cases sep [] = missing tt
Cut-cases sep (c ∷ s) = elim (ℕ_discrete c sep) [
  | yes e ↦ found [] s tt (rw e)
  | no h ↦ Cut-behind sep c s h (Cut-cases sep s)
]

digits-Lacks : (s : Bytes) → All IsDigit s → Lacks b':' s
digits-Lacks [] d = tt
digits-Lacks (c ∷ s) d = (omega arith, digits-Lacks s d.1)

-- The last part of the parser takes exactly a value of the size that is followed by a comma.
take_value_accepted :
    (input size rest v left : Bytes) (n : ℕ)
    → take_value input size rest n ≡ (some v, left)
    → (length v ≡ n) × (rest ≡ v ++ b',' ∷ left) × ((n ≡ 0) ⊎ (front size ≢ b'0'))
unfolding take_value
take_value_accepted input size rest v left n h =
    ground (arith, cut_lem n rest 0, length-take_lt n rest)

take_value_accepts :
    (input size v left : Bytes)
    → (length v ≡ 0) ⊎ (front size ≢ b'0')
    → take_value input size (v ++ b',' ∷ left) (length v) ≡ (some v, left)
unfolding take_value
take_value_accepts input size v left u = ground (
  arith,
  length-append v (b',' ∷ left),
  get_or-length_append v left b',' 0,
  take-length_append v (b',' ∷ left),
  drop_past v left b',',
)

module _ (text : Text) where
  with_size_accepted :
      (laws : TextLaws text) (input size rest v left : Bytes)
      → input ≡ size ++ b':' ∷ rest
      → with_size input size rest (text.parse_integer size) ≡ (some v, left)
      → IsNetstring input v left
  unfolding with_size
  with_size_accepted laws input size rest v left e h =
      elim (Option-cases (text.parse_integer size)) [
        | inl bad ↦ cc
        | inr (n, good) ↦
            let (len, shape, unpadded) =
              take_value_accepted input size rest v left n (rw (good, with_size) at h) in
            let (nonempty, digits, spells, fits) = laws.parse_accepted size good in
            record {
              size = size;
              is_size = record {
                nonempty = nonempty;
                digits = digits;
                spells = spells ∙ sym len;
                fits = omega arith;
                unpadded = rw len unpadded;
              };
              layout = e ∙ ap (λ (t : Bytes). size ++ b':' ∷ t) shape;
            }
      ]

  accepted_of_Cut :
      (laws : TextLaws text) (input v left : Bytes)
      → Cut b':' input
      → parse_netstring text input ≡ (some v, left)
      → IsNetstring input v left
  unfolding parse_netstring with_rest
  accepted_of_Cut laws input v left (missing l) h =
      let refused =
        subst (λ p. with_rest text input p ≡ (some v, left)) (laws.split_without input b':' l) h in
      cc refused
  accepted_of_Cut laws input v left (found a b l e) h = with_size_accepted laws input a b v left e (
      subst (λ p. with_rest text input p ≡ (some v, left))
        (ap (λ (t : Bytes). text.split t b':') e ∙ laws.split_at a b b':' l) h)

  -- Whatever the parser takes is a netstring, the value is what the netstring holds, and the input
  -- that is left is what follows it.
  pub parse_netstring_accepted :
      (laws : TextLaws text) (input v left : Bytes)
      → parse_netstring text input ≡ (some v, left)
      → IsNetstring input v left
  parse_netstring_accepted laws input v left h =
      accepted_of_Cut laws input v left (Cut-cases b':' input) h

  -- Every netstring is taken.
  pub parse_netstring_accepts :
      (laws : TextLaws text) (input v left : Bytes)
      → IsNetstring input v left
      → parse_netstring text input ≡ (some v, left)
  unfolding parse_netstring with_rest with_size
  parse_netstring_accepts laws input v left net = rw split_here (rw (parse_here, with_size) taken)
    where
      open net use {size}

      split_here : text.split input b':' ≡ (size, some (v ++ b',' ∷ left))
      split_here =
          ap (λ (t : Bytes). text.split t b':') net.layout
          ∙ laws.split_at size (v ++ b',' ∷ left) b':' (digits-Lacks size net.is_size.digits)

      parse_here : text.parse_integer size ≡ some (length v)
      parse_here =
          laws.parse_accepts size net.is_size.nonempty net.is_size.digits
            (omega (arith, net.is_size))
          ∙ ap some net.is_size.spells

      taken : take_value input size (v ++ b',' ∷ left) (length v) ≡ (some v, left)
      taken = take_value_accepts input size v left net.is_size.unpadded

  -- A refusal leaves the input where it was.
  pub parse_netstring_refuses :
      (input : Bytes)
      → (parse_netstring text input).0 ≡ none
      → (parse_netstring text input).1 ≡ input
  unfolding parse_netstring with_rest with_size take_value
  parse_netstring_refuses input h = ground arith

  -- Either no netstring stands at the front of the input, and it is refused and left as it was; or
  -- one does, and its value is taken and what follows it is left.
  pub parse_netstring_cases :
      (laws : TextLaws text) (input : Bytes)
      → ((parse_netstring text input ≡ (none, input))
          × ((v rest : Bytes) → ¬ IsNetstring input v rest))
        ⊎ ((v : Bytes) × (rest : Bytes) × (parse_netstring text input ≡ (some v, rest))
            × IsNetstring input v rest)
  parse_netstring_cases laws input = go (parse_netstring text input) refl
    where
      go :
          (r : Option Bytes × Bytes)
          → parse_netstring text input ≡ r
          → ((parse_netstring text input ≡ (none, input))
              × ((v rest : Bytes) → ¬ IsNetstring input v rest))
            ⊎ ((v : Bytes) × (rest : Bytes) × (parse_netstring text input ≡ (some v, rest))
                × IsNetstring input v rest)
      go (none, left) e = inl (
        ground (arith, parse_netstring_refuses input),
        λ v rest net. cc (e, parse_netstring_accepts laws input v rest net),
      )
      go (some v, rest) e = inr (v, rest, e, parse_netstring_accepted laws input v rest e)
