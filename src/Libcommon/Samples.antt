-- ===== src/Libcommon/Samples.antt =====
-- Operations that meet the laws of the parent, for the tests of the other modules.
use qrelay.Common.{
  ◌<◌, ◌≡◌, ◌≢◌, inl, inr, refl, ap, Bool-cases, Bool, true, false, ◌&&◌, ◌||◌, not, List, [], ◌∷◌,
  ◌++◌, Option, none, some, arith, Bytes, IsDigit, Lacks, value, size_mod, All, leb, ltb, ◌==◌,
  if◌then◌else◌, ℕ, decimal, concat, length, concat-append, take,
}
use qrelay.Libcommon.{Text, TextLaws, Address, Generator, GeneratorLaws, Arrays, Strip, StripLaws}

abbrev in_front : ℕ → Bytes × Option Bytes → Bytes × Option Bytes
in_front c (a, b) = (c ∷ a, b)

abbrev pub split : Bytes → ℕ → Bytes × Option Bytes
split [] sep = ([], none)
split (c ∷ s) sep = if c == sep then ([], some s) else in_front c (split s sep)

abbrev all_digits : Bytes → Bool
all_digits [] = true
all_digits (c ∷ s) = leb b'0' c && leb c b'9' && all_digits s

abbrev is_nil : Bytes → Bool
is_nil [] = true
is_nil (c ∷ s) = false

abbrev pub parse_integer : Bytes → Option ℕ
parse_integer s =
    if not (is_nil s) && all_digits s && ltb (value 0 s) size_mod then some (value 0 s) else none

abbrev pub sample_text : Text
sample_text = record { split = split; parse_integer = parse_integer }

split_at : (a b : Bytes) (sep : ℕ) → Lacks sep a → split (a ++ sep ∷ b) sep ≡ (a, some b)
split_at [] b sep h = ground arith
split_at (c ∷ a) b sep h = ground (arith, split_at a b sep h.1)

split_without : (s : Bytes) (sep : ℕ) → Lacks sep s → split s sep ≡ (s, none)
split_without [] sep h = refl
split_without (c ∷ s) sep h = ground (arith, split_without s sep h.1)

all_digits-IsDigit : (s : Bytes) → all_digits s ≡ true → All IsDigit s
all_digits-IsDigit [] h = tt
all_digits-IsDigit (c ∷ s) h = ground (arith, all_digits-IsDigit s)

IsDigit-all_digits : (s : Bytes) → All IsDigit s → all_digits s ≡ true
IsDigit-all_digits [] h = refl
IsDigit-all_digits (c ∷ s) h = ground (arith, IsDigit-all_digits s h.1)

parse_accepts :
    (s : Bytes) → s ≢ [] → All IsDigit s → value 0 s < size_mod → parse_integer s ≡ some (value 0 s)
parse_accepts [] h d f = absurd (h refl)
parse_accepts (c ∷ s) h d f = ground (arith, IsDigit-all_digits (c ∷ s) d)

parse_accepted :
    (s : Bytes) {n : ℕ}
    → parse_integer s ≡ some n
    → (s ≢ []) × All IsDigit s × (value 0 s ≡ n) × (n < size_mod)
parse_accepted [] h = cc
parse_accepted (c ∷ s) {n} h =
    (λ e. cc, all_digits-IsDigit (c ∷ s) (ground arith), ground arith, ground arith)

pub sample_text-TextLaws : TextLaws sample_text
sample_text-TextLaws = record {
  split_at = split_at;
  split_without = split_without;
  parse_accepts = parse_accepts;
  parse_accepted = parse_accepted;
}

-- An address with an at sign.
abbrev pub verify : Bytes → Bool
verify [] = false
verify (c ∷ s) = c == b'@' || verify s

abbrev pub sample_address : Address
sample_address = record { verify = verify }

abbrev header : ℕ → Bytes
header n = decimal n ++ b':' ∷ []

abbrev generate : List Bytes → Bool → List Bytes
generate parts true = header (length (concat parts)) ∷ parts ++ (b',' ∷ []) ∷ []
generate parts false = header (length (concat parts)) ∷ parts

abbrev pub sample_generator : Generator
sample_generator = record { header = header; generate = generate }

generate_comma :
    (parts : List Bytes)
    → concat (generate parts true) ≡ header (length (concat parts)) ++ (concat parts ++ b',' ∷ [])
generate_comma parts =
    ap (λ (s : Bytes). header (length (concat parts)) ++ s) (concat-append parts ((b',' ∷ []) ∷ []))

pub sample_generator-GeneratorLaws : GeneratorLaws sample_generator
sample_generator-GeneratorLaws = record { header_lem = λ n. refl; generate_comma = generate_comma }

-- Arrays of which the empty one is null.
abbrev pub sample_arrays : Arrays
sample_arrays = record { is_null = is_nil; some_bytes = λ c s. refl }

abbrev strip_left : Bytes → Bytes
strip_left [] = []
strip_left (c ∷ s) = let more = strip_left s in if leb c b' ' then more else c ∷ s

abbrev pub sample_strip : Strip
sample_strip = record { strip_left = strip_left }

strip_left_end : (s : Bytes) → (front : Bytes) × (s ≡ front ++ strip_left s)
strip_left_end [] = ([], refl)
strip_left_end (c ∷ s) = elim (Bool-cases (leb c b' ')) [
  | inl e ↦ let (front, whole) = strip_left_end s in (c ∷ front, rw e (ap (◌∷◌ c) whole))
  | inr e ↦ ([], rw e refl)
]

pub sample_strip-StripLaws : StripLaws sample_strip
sample_strip-StripLaws = record { strip_left_end = strip_left_end }

abbrev pub sample_truncate : Bytes → ℕ → Bytes
sample_truncate s n = take n s

abbrev pub all_chars : Bytes → (ℕ → Bool) → Bool
all_chars [] f = true
all_chars (c ∷ s) f = f c && all_chars s f

abbrev pub some_chars : Bytes → (ℕ → Bool) → Bool
some_chars s f = not (is_nil s) && all_chars s f

pub all_chars-All : (s : Bytes) (f : ℕ → Bool) → all_chars s f ≡ true → All (λ c. f c ≡ true) s
all_chars-All [] f h = tt
all_chars-All (c ∷ s) f h = ground (arith, all_chars-All s f)

pub some_chars-All :
    (s : Bytes) (f : ℕ → Bool) → some_chars s f ≡ true → (s ≢ []) × All (λ c. f c ≡ true) s
some_chars-All [] f h = cc
some_chars-All (c ∷ s) f h = ((λ e. cc), all_chars-All (c ∷ s) f h)
