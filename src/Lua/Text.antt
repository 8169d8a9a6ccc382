-- ===== src/Lua/Text.antt =====
-- The comparison of texts that stands for `StringIsEqual` and for the names of Lua's globals.
use qrelay.Common.{◌≡◌, refl, true, Bytes, [], ◌∷◌, arith}
use qrelay.Lua.{same_text}

pub same_text_refl : (s : Bytes) → same_text s s ≡ true
same_text_refl [] = refl
same_text_refl (c ∷ s) = ground (arith, same_text_refl s)

pub same_text-≡ : (s t : Bytes) → same_text s t ≡ true → s ≡ t
same_text-≡ [] [] h = refl
same_text-≡ [] (d ∷ t) h = cc
same_text-≡ (c ∷ s) [] h = cc
same_text-≡ (c ∷ s) (d ∷ t) h = ground (arith, same_text-≡ s t)
