-- ===== src/Netstring.antt =====
-- src/djb/NetstringParser.cxx: the parser of one netstring.
pub mod Grammar
pub mod RoundTrip
mod Tests
use qrelay.Common.{
  decimal, [], ◌∷◌, ◌++◌, ℕ, suc, ◌+◌, ◌≡◌, Bool, true, false, ◌&&◌, ◌||◌, not, Option, none, some,
  Bytes, ltb, leb, ◌==◌, if◌then◌else◌, get_or, take, drop, length,
}
use qrelay.Libcommon.{Text}

-- The printer of the tests (test/TestQmqpMail.cxx).
unfoldable pub netstring : Bytes → Bytes
netstring payload = decimal (length payload) ++ b':' ∷ (payload ++ b',' ∷ [])

-- `value_size_string.front()`, read only where the text is not empty.
abbrev front : Bytes → ℕ
front s = get_or s 0 0

-- The part behind the size: `rest` starts after the colon. The result is the value, if there is
-- one, and what `input_r` refers to afterwards.
take_value : Bytes → Bytes → Bytes → ℕ → Option Bytes × Bytes
take_value input value_size_string rest value_size =
    if ltb 0 value_size && front value_size_string == b'0'
    then (none, input)
    else if leb (length rest) value_size || not (get_or rest value_size 0 == b',')
    then (none, input)
    else (some (take value_size rest), drop (value_size + 1) rest)

-- The size, where it is a number.
with_size : Bytes → Bytes → Bytes → Option ℕ → Option Bytes × Bytes
unfolding take_value
with_size input value_size_string rest none = (none, input)
with_size input value_size_string rest (some value_size) =
    take_value input value_size_string rest value_size

module _ (text : Text) where
  with_rest : Bytes → Bytes × Option Bytes → Option Bytes × Bytes
  unfolding with_size
  with_rest input (value_size_string, none) = (none, input)
  with_rest input (value_size_string, some rest) =
      with_size input value_size_string rest (text.parse_integer value_size_string)

  -- `ParseNetstring`: a null string_view is `none`.
  unfoldable pub parse_netstring : Bytes → Option Bytes × Bytes
  unfolding with_rest
  parse_netstring input = with_rest input (text.split input b':')
