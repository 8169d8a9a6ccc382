-- ===== src/Netstring/Tests.antt =====
-- `ParseNetstring` on inputs of test/TestNetstringParser.cxx's kind.
use qrelay.Common.{
  decimal, ◌≡◌, refl, [], ◌∷◌, ◌++◌, none, some, arith, Bytes, codes, All, ◌⊎◌, ◌≢◌,
}
use qrelay.Libcommon.Samples.{sample_text, sample_text-TextLaws}
use qrelay.Netstring.{netstring, parse_netstring}
use qrelay.Netstring.Grammar.{
  IsNetstring, parse_netstring_accepted, parse_netstring_accepts, parse_netstring_cases,
}
use qrelay.Netstring.RoundTrip.{netstring_unless_padded, parse_netstring_zeros}

abbrev hello_rest : Bytes
hello_rest = codes "5:hello,rest"

hello_parsed : parse_netstring sample_text hello_rest ≡ (some (codes "hello"), codes "rest")
unfolding parse_netstring
hello_parsed = refl

padded_refused : parse_netstring sample_text (codes "05:hello,") ≡ (none, codes "05:hello,")
unfolding parse_netstring
padded_refused = refl

short_refused : parse_netstring sample_text (codes "5:hell,") ≡ (none, codes "5:hell,")
unfolding parse_netstring
short_refused = refl

hello_printed : netstring (codes "hello") ≡ codes "5:hello,"
unfolding netstring decimal
hello_printed = refl

parse_netstring_accepted_example : IsNetstring hello_rest (codes "hello") (codes "rest")
parse_netstring_accepted_example =
    parse_netstring_accepted sample_text sample_text-TextLaws hello_rest (codes "hello")
      (codes "rest") hello_parsed

hello_IsNetstring : IsNetstring hello_rest (codes "hello") (codes "rest")
hello_IsNetstring = record {
  size = codes "5";
  is_size = record {
    nonempty = λ e. cc;
    digits = (omega arith, tt);
    spells = refl;
    fits = omega arith;
    unpadded = omega arith;
  };
  layout = refl;
}

parse_netstring_accepts_example :
    parse_netstring sample_text hello_rest ≡ (some (codes "hello"), codes "rest")
parse_netstring_accepts_example =
    parse_netstring_accepts sample_text sample_text-TextLaws hello_rest (codes "hello")
      (codes "rest") hello_IsNetstring

parse_netstring_cases_example :
    ((parse_netstring sample_text hello_rest ≡ (none, hello_rest))
      × ((v rest : Bytes) → ¬ IsNetstring hello_rest v rest))
    ⊎ ((v : Bytes) × (rest : Bytes) × (parse_netstring sample_text hello_rest ≡ (some v, rest))
        × IsNetstring hello_rest v rest)
parse_netstring_cases_example = parse_netstring_cases sample_text sample_text-TextLaws hello_rest

netstring_unless_padded_example :
    (hello_rest ≡ netstring (codes "hello") ++ codes "rest")
    ⊎ ((codes "hello" ≡ [])
        × ((zeros : Bytes) × (zeros ≢ [])
            × All (λ c. c ≡ b'0') zeros
            × (hello_rest ≡ zeros ++ b':' ∷ b',' ∷ codes "rest")))
netstring_unless_padded_example =
    netstring_unless_padded sample_text sample_text-TextLaws hello_rest (codes "hello")
      (codes "rest") hello_parsed

parse_netstring_zeros_example :
    parse_netstring sample_text (codes "00" ++ b':' ∷ b',' ∷ codes "rest") ≡ (some [], codes "rest")
parse_netstring_zeros_example =
    parse_netstring_zeros sample_text sample_text-TextLaws (codes "00") (codes "rest") (λ e. cc)
      (refl, (refl, tt))
