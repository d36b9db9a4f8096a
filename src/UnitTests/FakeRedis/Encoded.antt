-- ===== src/UnitTests/FakeRedis/Encoded.antt =====
-- src/checks/redis.rs, `resp_command_len`: the length of a command as a RESP client writes it.
use healthkit.Base.{
  ℕ, suc, ◌+◌, ◌-◌, ◌*◌, ◌≤◌, ◌≡◌, refl, ◌∙◌, ap, true, Text, List, [], ◌∷◌, ◌++◌, append_assoc, ok,
  length, length-append, leb, flat_map, All, arith,
}
use healthkit.Duration.{format}
use healthkit.Duration.Digits.{IsDigit, format-IsDigit}
use healthkit.Duration.Values.{value, value-format}
use healthkit.UnitTests.Harness.{leb_le}
use healthkit.UnitTests.FakeRedis.{
  usize_max, digit, number, line_end, number_line, skip, marked, bulk, bulks, resp_command_len,
}

abbrev crlf : Text
crlf = 13 ∷ 10 ∷ []

-- `$<len>\r\n<data>\r\n`
unfoldable pub bulk_string : Text → Text
bulk_string arg = b'$' ∷ (format (length arg) ++ (crlf ++ (arg ++ crlf)))

-- `*<n>\r\n` and the arguments as bulk strings.
abbrev pub command : List Text → Text
command args = b'*' ∷ (format (length args) ++ (crlf ++ flat_map bulk_string args))

value_grows : (n : ℕ) (s : Text) → n ≤ value n s
value_grows n [] = omega arith
value_grows n (c ∷ s) = omega (arith, value_grows (n * 10 + (c - b'0')) s)

-- Digits, and then something else, are read as the number that they stand for.
number-digits :
    (n i : ℕ) (s rest : Text)
    → All IsDigit s
    → value n s ≤ usize_max
    → number n i (s ++ 13 ∷ rest) ≡ ok (value n s, i + length s, 13 ∷ rest)
unfolding number
number-digits n i [] rest h fits = ap (λ j. ok (n, j, 13 ∷ rest)) (omega arith)
number-digits n i (c ∷ s) rest h fits =
    let d : digit c ≡ true = ground arith in
    let small : leb (n * 10 + (c - 48)) usize_max ≡ true =
      leb_le _ _ (omega (arith, value_grows (n * 10 + (c - 48)) s)) in
    rw (d, small)
      (number-digits (n * 10 + (c - 48)) (suc i) s rest h.1 fits
        ∙ ap (λ j. ok (value (n * 10 + (c - 48)) s, j, 13 ∷ rest)) (omega arith))

number_line-format :
    (i n : ℕ) (rest : Text)
    → n ≤ usize_max
    → number_line i (format n ++ (crlf ++ rest)) ≡ ok (n, i + length (format n) + 2, rest)
unfolding number_line line_end
number_line-format i n rest fits =
    rw
      (
        number-digits 0 i (format n) (10 ∷ rest) (format-IsDigit n) (rw (value-format n) fits),
        value-format n,
      )
      refl

skip-append : (s rest : Text) → skip (length s) (s ++ rest) ≡ ok rest
unfolding skip
skip-append [] rest = refl
skip-append (c ∷ s) rest = skip-append s rest

length-bulk_string :
    (arg : Text) → length (bulk_string arg) ≡ length (format (length arg)) + length arg + 5
unfolding bulk_string
length-bulk_string arg =
    omega
      (arith, length-append (format (length arg)) (crlf ++ (arg ++ crlf)), length-append arg crlf)

bulk-bulk_string :
    (i : ℕ) (arg rest : Text)
    → i + length (bulk_string arg) ≤ usize_max
    → bulk i (bulk_string arg ++ rest) ≡ ok (i + length (bulk_string arg), rest)
unfolding bulk marked bulk_string
bulk-bulk_string i arg rest fits =
    let size = length-bulk_string arg in
    let j : ℕ = suc i + length (format (length arg)) + 2 in
    let small : leb (j + (length arg + 2)) usize_max ≡ true = leb_le _ _ (omega arith) in
    let skipped : skip (length arg + 2) ((arg ++ crlf) ++ rest) ≡ ok rest =
      rw (← length-append arg crlf) (skip-append (arg ++ crlf) rest) in
    rw
      (
        append_assoc (format (length arg)) (crlf ++ (arg ++ crlf)) rest,
        number_line-format (suc i) (length arg) ((arg ++ crlf) ++ rest) (omega arith),
        small,
        skipped,
      )
      (ap (λ k. ok (k, rest)) (omega arith))

bulks-flat_map :
    (i : ℕ) (args : List Text) (rest : Text)
    → i + length (flat_map bulk_string args) ≤ usize_max
    → bulks (length args) i (flat_map bulk_string args ++ rest)
      ≡ ok (i + length (flat_map bulk_string args))
unfolding bulks flat_map
bulks-flat_map i [] rest fits = ap ok (omega arith)
bulks-flat_map i (arg ∷ args) rest fits =
    let size = length-append (bulk_string arg) (flat_map bulk_string args) in
    rw
      (
        append_assoc (bulk_string arg) (flat_map bulk_string args) rest,
        bulk-bulk_string i arg (flat_map bulk_string args ++ rest) (omega arith),
      )
      (bulks-flat_map (i + length (bulk_string arg)) args rest (omega arith) ∙ ap ok (omega arith))

-- There is one byte at least for each argument.
args_le : (args : List Text) → length args ≤ length (flat_map bulk_string args)
unfolding flat_map
args_le [] = omega arith
args_le (arg ∷ args) = omega (
  arith,
  length-append (bulk_string arg) (flat_map bulk_string args),
  length-bulk_string arg,
  args_le args,
)

pub length-command :
    (args : List Text)
    → length (command args) ≡ length (format (length args)) + length (flat_map bulk_string args) + 3
length-command args =
    omega (arith, length-append (format (length args)) (crlf ++ flat_map bulk_string args))

-- Whatever follows it in the buffer, a command that a client wrote is found with its length, if
-- that fits in a `usize`.
pub resp_command_len-command :
    (args : List Text) (rest : Text)
    → length (command args) ≤ usize_max
    → resp_command_len (command args ++ rest) ≡ ok (length (command args))
unfolding resp_command_len marked
resp_command_len-command args rest fits =
    let size = length-command args in
    let few = args_le args in
    rw
      (
        append_assoc (format (length args)) (crlf ++ flat_map bulk_string args) rest,
        number_line-format 1 (length args) (flat_map bulk_string args ++ rest) (omega arith),
      )
      (bulks-flat_map (1 + length (format (length args)) + 2) args rest (omega arith)
        ∙ ap ok (omega arith))
