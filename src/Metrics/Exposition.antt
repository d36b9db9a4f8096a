-- ===== src/Metrics/Exposition.antt =====
-- An independent reader of the Prometheus text format, version 0.0.4: lines that each end with a
-- newline, comments, and samples of a name, labels with escaped values, and a value.
pub mod Reads
use healthkit.Base.{
  ℕ, zero, suc, ◌≡◌, refl, Bool, true, false, ◌||◌, Text, codes, List, [], ◌∷◌, ◌++◌, Option, none,
  some, newline, quote, backslash, ◌==◌, if◌then◌else◌,
}

pub data Entry : Type 0 where
  comment : Text → Entry
  sample : Text → List (Text × Text) → Text → Entry

infixl 5 ◌>>=◌
abbrev pub ◌>>=◌ {ℓ κ} : {A : Type ℓ} {B : Type κ} → Option A → (A → Option B) → Option B
none >>= f = none
some a >>= f = f a

-- The text before the next `stop`, and the text behind it.
unfoldable pub until : ℕ → Text → Text → Option (Text × Text)
until stop seen [] = none
until stop seen (c ∷ s) =
    let more = until stop (seen ++ c ∷ []) s in if c == stop then some (seen, s) else more

unfoldable pub expect : ℕ → Text → Option Text
expect e [] = none
expect e (c ∷ s) = if c == e then some s else none

-- A label value up to its closing quote, and the text behind; the flag says that a backslash is
-- pending.
unfoldable pub label_value : Text → Bool → Text → Option (Text × Text)
label_value seen pending [] = none
label_value seen true (c ∷ s) =
    let line_break = label_value (seen ++ newline ∷ []) false s in
    let same = label_value (seen ++ c ∷ []) false s in
    if c == b'n' then line_break else if c == backslash || c == quote then same else none
label_value seen false (c ∷ s) =
    let escaped = label_value seen true s in
    let same = label_value (seen ++ c ∷ []) false s in
    if c == backslash then escaped else if c == quote then some (seen, s) else same

-- Behind a label: a comma and more labels, or the closing brace.
unfoldable pub label_end :
    (Text → Option (List (Text × Text) × Text))
    → Text × Text
    → Text
    → Option (List (Text × Text) × Text)
label_end more label [] = none
label_end more label (c ∷ s) =
    if c == b','
    then (do (labels, rest) ← more s; some (label ∷ labels, rest))
    else if c == b'}'
    then some (label ∷ [], s)
    else none

-- The labels behind the opening brace, at most as many as the first argument.
unfoldable pub labels : ℕ → Text → Option (List (Text × Text) × Text)
unfolding until expect label_value label_end
labels zero s = none
labels (suc n) s = do
  (key, s1) ← until b'=' [] s
  s2 ← expect quote s1
  (value, s3) ← label_value [] false s2
  label_end (labels n) (key, value) s3

unfoldable pub parse_line : Text → Option Entry
unfolding until expect labels
parse_line [] = none
parse_line (c ∷ s) = if c == b'#' then some (comment (c ∷ s)) else do
  (name, s1) ← until b'{' [] (c ∷ s)
  (pairs, s2) ← labels 8 s1
  value ← expect b' ' s2
  some (sample name pairs value)

-- The entry of a line before the entries of the lines behind it.
abbrev pub entry_before : Option Entry → Option (List Entry) → Option (List Entry)
entry_before none es = none
entry_before (some e) none = none
entry_before (some e) (some es) = some (e ∷ es)

-- All lines; the last one ends with a newline too.
unfoldable pub entries : Text → Text → Option (List Entry)
unfolding parse_line
entries [] [] = some []
entries (c ∷ line) [] = none
entries line (c ∷ s) =
    let next = entry_before (parse_line line) (entries [] s) in
    let more = entries (line ++ c ∷ []) s in if c == newline then next else more

unfoldable pub parse_exposition : Text → Option (List Entry)
unfolding entries
parse_exposition s = entries [] s

parse_sample :
    parse_exposition (codes "# HELP x\nx{a=\"b\\n\\\"\",c=\"d\"} 0.5\n")
    ≡ some (
        comment (codes "# HELP x")
        ∷ sample
            (codes "x")
            ((codes "a", codes "b\n\"") ∷ (codes "c", codes "d") ∷ [])
            (codes "0.5")
        ∷ [])
unfolding parse_exposition
parse_sample = refl
