-- ===== src/Metrics/Escape.antt =====
-- src/metrics.rs, `escape_label`: a reader of label values gets the value back.
use healthkit.Base.{
  ℕ, ◌≡◌, refl, sym, ◌≢◌, false, Text, [], ◌∷◌, ◌++◌, flat_map, some, append_assoc, append-nil, All,
  All-append, newline, quote, arith,
}
use healthkit.Metrics.Floats.{IsPlain}
use healthkit.Metrics.Render.{escape_char, escape_into, escape_label}
use healthkit.Metrics.Exposition.{label_value}

escape_into-flat_map : (out s : Text) → escape_into out s ≡ out ++ flat_map escape_char s
unfolding escape_into flat_map
escape_into-flat_map out [] = sym (append-nil out)
escape_into-flat_map out (c ∷ s) =
    rw (escape_into-flat_map (out ++ escape_char c) s)
      (append_assoc out (escape_char c) (flat_map escape_char s))

pub escape_label-flat_map : (s : Text) → escape_label s ≡ flat_map escape_char s
unfolding escape_label
escape_label-flat_map s = escape_into-flat_map [] s

-- Reading the escape of one character adds that character.
value_of_char :
    (c : ℕ) (seen rest : Text)
    → label_value seen false (escape_char c ++ rest) ≡ label_value (seen ++ c ∷ []) false rest
unfolding label_value escape_char
value_of_char c seen rest = ground arith

value_of_chars :
    (s seen rest : Text)
    → label_value seen false (flat_map escape_char s ++ quote ∷ rest) ≡ some (seen ++ s, rest)
unfolding flat_map
value_of_chars [] seen rest = unfold label_value in rw append-nil
value_of_chars (c ∷ s) seen rest =
    simp (append_assoc, value_of_char) (simp (value_of_chars s (seen ++ c ∷ []) rest, append_assoc))

-- Behind its opening quote, an escaped label value reads as the value, whatever characters it
-- holds, and the reader stops at the closing quote.
pub label_value-escape :
    (s rest : Text) → label_value [] false (escape_label s ++ quote ∷ rest) ≡ some (s, rest)
label_value-escape s rest = rw escape_label-flat_map (value_of_chars s [] rest)

escape_char_line : (c : ℕ) → All (λ x. x ≢ newline) (escape_char c)
unfolding escape_char
escape_char_line c = ground arith

flat_map_line : (s : Text) → All (λ x. x ≢ newline) (flat_map escape_char s)
unfolding flat_map
flat_map_line [] = tt
flat_map_line (c ∷ s) =
    All-append _ (escape_char c) (flat_map escape_char s) (escape_char_line c) (flat_map_line s)

-- An escaped label value stays on its line.
pub escape_label_line : (s : Text) → All (λ x. x ≢ newline) (escape_label s)
escape_label_line s = rw escape_label-flat_map (flat_map_line s)

escape_plain_char : (c : ℕ) → IsPlain c → escape_char c ≡ c ∷ []
unfolding escape_char
escape_plain_char c h = ground arith

flat_map_plain : (s : Text) → All IsPlain s → flat_map escape_char s ≡ s
unfolding flat_map
flat_map_plain [] h = refl
flat_map_plain (c ∷ s) h = rw (escape_plain_char c h.0, flat_map_plain s h.1)

-- Plain text is its own escape.
pub escape_label-plain : (s : Text) → All IsPlain s → escape_label s ≡ s
escape_label-plain s h = rw escape_label-flat_map (flat_map_plain s h)

pub label_value-plain :
    (s rest : Text) → All IsPlain s → label_value [] false (s ++ quote ∷ rest) ≡ some (s, rest)
label_value-plain s rest h = rw (escape_label-plain s h) at (label_value-escape s rest)
