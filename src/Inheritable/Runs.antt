-- ===== src/Inheritable/Runs.antt =====
-- Concrete command lines of inheritable values.
use ppb.Prelude.{Bytes, ℕ, ◌≡◌, refl, Option, none, some, [], ◌∷◌, ◌++◌}
use ppb.Inheritable.CommandLine.{inheritable_command_line}

-- "Lto", with a value parsed as its first byte.
abbrev lto : Bytes
lto = 76 ∷ 116 ∷ 111 ∷ []

abbrev first_byte : Bytes → Option ℕ
first_byte [] = none
first_byte (b ∷ bytes) = some b

-- "-Lto=2"
with_value : inheritable_command_line first_byte lto (45 ∷ lto ++ 61 ∷ 50 ∷ []) ≡ some (some 50)
unfolding inheritable_command_line
with_value = refl

-- "Lto=2"
no_dash : inheritable_command_line first_byte lto (lto ++ 61 ∷ 50 ∷ []) ≡ none
unfolding inheritable_command_line
no_dash = refl
