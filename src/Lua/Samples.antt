-- ===== src/Lua/Samples.antt =====
-- Functions that meet what is assumed of Lua's numbers and libcommon's tests of texts.
use qrelay.Common.{pos, none, codes, ltb, leb}
use qrelay.Libcommon.Samples.{all_chars, some_chars, all_chars-All, some_chars-All}
use qrelay.Lua.{LuaLibrary, LuaLibraryLaws}

-- A number is its value, and no text is a number.
abbrev pub sample_lua : LuaLibrary
sample_lua = record {
  print_number = λ n. codes "1";
  read_number = λ s. none;
  is_normal = ltb 0;
  of_natural = λ n. n;
  less = ltb;
  less_or_equal = leb;
  duration_cast = λ n. pos n;
  to_socket_address = λ v port. none;
  check_chars = all_chars;
  check_chars_non_empty = some_chars;
}

pub sample_lua-LuaLibraryLaws : LuaLibraryLaws sample_lua
sample_lua-LuaLibraryLaws = record {
  all_checked = all_chars-All;
  all_checked_non_empty = some_chars-All;
}
