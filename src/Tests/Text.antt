-- ===== src/Tests/Text.antt =====
-- Texts: a number, and a format with a width.
use mvmm.Base.{false, List, [], ◌∷◌}
use mvmm.Printf.Convert.{signed}
use mvmm.Printf.Format.{Item, char, percent, conversion}

-- `"a%4d%%"` with 42.
abbrev pieces : List Item
pieces = char b'a' ∷ (conversion false (b'4' ∷ []) (signed 42) ∷ (percent ∷ []))
