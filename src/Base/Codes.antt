-- ===== src/Base/Codes.antt =====
-- Texts as lists of code points: Rust's `String`, walked by `chars`.
use Prim.Native.Nat.{ℕ}
use Prim.Native.Char.{code}
use Prim.Native.String.{String}
use mathlib.Core.List.{List, [], ◌∷◌}

abbrev pub Text : Type 0
Text = List ℕ

-- The code points of a literal.
abbrev pub codes : String → Text
codes String.[] = []
codes (String.◌∷◌ c s) = code c ∷ codes s

abbrev pub newline : ℕ
newline = 10

abbrev pub quote : ℕ
quote = 34

abbrev pub backslash : ℕ
backslash = 92
