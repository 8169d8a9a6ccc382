-- ===== src/Libcommon.antt =====
-- What the program takes from the libcommon submodule, which is not part of the repository, as
-- records of operations; the laws are what the code relies on.
pub mod Samples
use qrelay.Common.{
  ℕ, suc, ◌+◌, ◌<◌, ◌≤◌, ◌≡◌, ◌≢◌, Bool, true, false, List, [], ◌∷◌, ◌++◌, Option, none, some,
  Bytes, IsDigit, Lacks, value, size_mod, All, concat, decimal, length,
}

-- util/StringSplit.hxx and util/NumberParser.hxx. The second part of `split` is `none` where the
-- source's string_view has a null pointer.
pub record Text : Type 0 where
  pub split : Bytes → ℕ → Bytes × Option Bytes
  pub parse_integer : Bytes → Option ℕ

-- `Split` cuts at the first separator; `ParseIntegerTo` takes one or more digits and nothing else,
-- and fails where the value does not fit a std::size_t.
pub record TextLaws (t : Text) : Type 0 where
  pub split_at : (a b : Bytes) (sep : ℕ) → Lacks sep a → t.split (a ++ sep ∷ b) sep ≡ (a, some b)
  pub split_without : (s : Bytes) (sep : ℕ) → Lacks sep s → t.split s sep ≡ (s, none)
  pub parse_accepts :
      (s : Bytes)
      → s ≢ []
      → All IsDigit s
      → value 0 s < size_mod
      → t.parse_integer s ≡ some (value 0 s)
  pub parse_accepted :
      (s : Bytes) {n : ℕ}
      → t.parse_integer s ≡ some n
      → (s ≢ []) × All IsDigit s × (value 0 s ≡ n) × (n < size_mod)

-- uri/EmailAddress.hxx.
pub record Address : Type 0 where
  pub verify : Bytes → Bool

-- net/djb/NetstringGenerator.hxx: `header` is the text that a NetstringHeader makes of a size, and
-- `generate list comma` puts a header in front of the list and, if asked to, a comma behind it.
pub record Generator : Type 0 where
  pub header : ℕ → Bytes
  pub generate : List Bytes → Bool → List Bytes

-- The header is the size in decimal and a colon, and all parts together are one netstring.
pub record GeneratorLaws (g : Generator) : Type 0 where
  pub header_lem : (n : ℕ) → g.header n ≡ decimal n ++ b':' ∷ []
  pub generate_comma :
      (parts : List Bytes)
      → concat (g.generate parts true)
        ≡ g.header (length (concat parts)) ++ (concat parts ++ b',' ∷ [])

-- util/AllocatedArray.hxx: whether an array of these bytes compares equal to nullptr. One that
-- holds a byte does not.
pub record Arrays : Type 0 where
  pub is_null : Bytes → Bool
  pub some_bytes : (c : ℕ) (s : Bytes) → is_null (c ∷ s) ≡ false

-- util/StringStrip.hxx: `StripLeft` removes the whitespace at the front.
pub record Strip : Type 0 where
  pub strip_left : Bytes → Bytes

-- What is left is the end of the text.
pub record StripLaws (t : Strip) : Type 0 where
  pub strip_left_end : (s : Bytes) → (front : Bytes) × (s ≡ front ++ t.strip_left s)
