-- ===== src/Metrics/Exposition/Reads.antt =====
-- Pieces of an exposition that read as a list of entries, whatever follows them.
use healthkit.Base.{
  ◌≡◌, refl, sym, ◌∙◌, ◌≢◌, ap, Text, List, [], ◌∷◌, ◌++◌, map, flat_map, Option, none, some,
  append_assoc, append-nil, All, newline, arith,
}
use healthkit.Metrics.Exposition.{Entry, parse_line, entry_before, entries, parse_exposition}

abbrev pub before : List Entry → Option (List Entry) → Option (List Entry)
before es none = none
before es (some fs) = some (es ++ fs)

pub record Reads (piece : Text) (es : List Entry) : Type 0 where
  pub at : (rest : Text) → entries [] (piece ++ rest) ≡ before es (entries [] rest)

before-append :
    (es fs : List Entry) (o : Option (List Entry)) → before es (before fs o) ≡ before (es ++ fs) o
before-append es fs none = refl
before-append es fs (some gs) = ap some (sym (append_assoc es fs gs))

before-nil : (o : Option (List Entry)) → before [] o ≡ o
before-nil none = refl
before-nil (some gs) = refl

pub Reads-nil : Reads [] []
Reads-nil = record { at = λ rest. sym (before-nil (entries [] rest)) }

pub Reads-append :
    (a b : Text) (es fs : List Entry) → Reads a es → Reads b fs → Reads (a ++ b) (es ++ fs)
Reads-append a b es fs ra rb = record {
  at = λ rest.
      rw (append_assoc a b rest, ra.at (b ++ rest), rb.at rest)
        (before-append es fs (entries [] rest));
}

pub Reads-flat_map {ℓ} :
    {A : Type ℓ} (piece : A → Text) (es : A → List Entry)
    → ((x : A) → Reads (piece x) (es x))
    → (xs : List A) → Reads (flat_map piece xs) (flat_map es xs)
unfolding flat_map
Reads-flat_map piece es h [] = Reads-nil
Reads-flat_map piece es h (x ∷ xs) =
    Reads-append (piece x) (flat_map piece xs) (es x) (flat_map es xs) (h x)
      (Reads-flat_map piece es h xs)

pub Reads-map {ℓ} :
    {A : Type ℓ} (piece : A → Text) (e : A → Entry)
    → ((x : A) → Reads (piece x) (e x ∷ []))
    → (xs : List A) → Reads (flat_map piece xs) (map e xs)
unfolding flat_map
Reads-map piece e h [] = Reads-nil
Reads-map piece e h (x ∷ xs) =
    Reads-append (piece x) (flat_map piece xs) (e x ∷ []) (map e xs) (h x) (Reads-map piece e h xs)

entries-line :
    (line seen rest : Text)
    → All (λ c. c ≢ newline) line
    → entries seen (line ++ newline ∷ rest)
      ≡ entry_before (parse_line (seen ++ line)) (entries [] rest)
unfolding entries
entries-line [] seen rest h = rw append-nil
entries-line (c ∷ line) seen rest h =
    ground (arith, entries-line line (seen ++ c ∷ []) rest h.1, append_assoc seen (c ∷ []) line)

one-before : (e : Entry) (o : Option (List Entry)) → entry_before (some e) o ≡ before (e ∷ []) o
one-before e none = refl
one-before e (some es) = refl

-- A line that holds no newline of its own reads as its entry.
pub Reads-line :
    (line : Text) (e : Entry)
    → All (λ c. c ≢ newline) line
    → parse_line line ≡ some e
    → Reads (line ++ newline ∷ []) (e ∷ [])
Reads-line line e h p = record {
  at = λ rest.
      rw (append_assoc line (newline ∷ []) rest, entries-line line [] rest h, p)
        (one-before e (entries [] rest));
}

pub parse-Reads : (s : Text) (es : List Entry) → Reads s es → parse_exposition s ≡ some es
unfolding parse_exposition
parse-Reads s es r = rw (← append-nil s) (r.at [] ∙ unfold entries in rw append-nil)
