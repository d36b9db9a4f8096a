-- ===== src/UnitTests/FakeRedis/Scanned.antt =====
-- src/checks/redis.rs, `resp_command_len`: what more bytes in the buffer change.
use healthkit.Base.{
  ℕ, zero, suc, ◌+◌, ◌-◌, ◌*◌, ◌≡◌, refl, ◌&&◌, Text, [], ◌∷◌, ◌++◌, Result, ok, err, leb, ◌==◌,
  Bool-cases, inl, inr, if◌then◌else◌,
}
use healthkit.UnitTests.FakeRedis.{
  Stop, incomplete, overflowed, ◌>>=◌, usize_max, digit, number, line_end, number_line, skip,
  marked, bulk, bulks, resp_command_len,
}

-- The second result is what the first one becomes with more bytes behind the buffer: it is the same
-- up to them, unless the buffer was incomplete.
abbrev pub Keeps : {A : Type 0} → (A → A) → Result A Stop → Result A Stop → Type 0
Keeps more (ok a) y = y ≡ ok (more a)
Keeps more (err overflowed) y = y ≡ err overflowed
Keeps more (err incomplete) y = Unit

Keeps-bind :
    {A B : Type 0} (g : A → A) (h : B → B) (x y : Result A Stop) (f : A → Result B Stop)
    → Keeps g x y
    → ((a : A) → Keeps h (f a) (f (g a)))
    → Keeps h (x >>= f) (y >>= f)
Keeps-bind g h (ok a) y f k l = rw k (l a)
Keeps-bind g h (err overflowed) y f k l = rw k refl
Keeps-bind g h (err incomplete) y f k l = tt

-- What `number_line` does behind the digits.
abbrev pub ended : ℕ × ℕ × Text → Result (ℕ × ℕ × Text) Stop
ended (n, i, rest) = line_end i rest >>= λ (i, rest). ok (n, i, rest)

module _ (t : Text) where
  abbrev behind : Text → Text
  behind r = r ++ t

  abbrev behind_index : ℕ × Text → ℕ × Text
  behind_index (i, r) = (i, r ++ t)

  abbrev behind_number : ℕ × ℕ × Text → ℕ × ℕ × Text
  behind_number (n, i, r) = (n, i, r ++ t)

  Keeps-marked : (m : ℕ) (s : Text) → Keeps behind (marked m s) (marked m (s ++ t))
  unfolding marked
  Keeps-marked m [] = tt
  Keeps-marked m (c ∷ s) = elim (Bool-cases (c == m)) [
    | inl same ↦ rw same refl
    | inr other ↦ rw other tt
  ]

  Keeps-line_end : (i : ℕ) (s : Text) → Keeps behind_index (line_end i s) (line_end i (s ++ t))
  unfolding line_end
  Keeps-line_end i [] = tt
  Keeps-line_end i (c ∷ []) = tt
  Keeps-line_end i (c ∷ d ∷ s) = elim (Bool-cases (c == 13 && d == 10)) [
    | inl ends ↦ rw ends refl
    | inr other ↦ rw other tt
  ]

  Keeps-number :
      (n i : ℕ) (s : Text)
      → Keeps behind_number (number n i s >>= ended) (number n i (s ++ t) >>= ended)
  unfolding number line_end
  Keeps-number n i [] = tt
  Keeps-number n i (c ∷ s) = elim (Bool-cases (digit c)) [
    | inl is ↦ elim (Bool-cases (leb (n * 10 + (c - 48)) usize_max)) [
      | inl fits ↦ rw (is, fits) (Keeps-number (n * 10 + (c - 48)) (suc i) s)
      | inr large ↦ rw (is, large) refl
    ]
    | inr other ↦ rw other (
        Keeps-bind behind_index behind_number (line_end i (c ∷ s)) (line_end i (c ∷ s ++ t)) _
          (Keeps-line_end i (c ∷ s)) (λ (j, r). refl))
  ]

  Keeps-number_line :
      (i : ℕ) (s : Text) → Keeps behind_number (number_line i s) (number_line i (s ++ t))
  unfolding number_line
  Keeps-number_line i s = Keeps-number 0 i s

  Keeps-skip : (n : ℕ) (s : Text) → Keeps behind (skip n s) (skip n (s ++ t))
  unfolding skip
  Keeps-skip zero s = refl
  Keeps-skip (suc n) [] = tt
  Keeps-skip (suc n) (c ∷ s) = Keeps-skip n s

  Keeps-bulk : (i : ℕ) (s : Text) → Keeps behind_index (bulk i s) (bulk i (s ++ t))
  unfolding bulk
  Keeps-bulk i s =
      Keeps-bind behind behind_index (marked b'$' s) (marked b'$' (s ++ t)) _ (Keeps-marked b'$' s)
        (λ r.
          Keeps-bind behind_number behind_index (number_line (suc i) r)
            (number_line (suc i) (r ++ t)) _ (Keeps-number_line (suc i) r)
            (λ (n, j, r'). data_kept n j r'))
    where
      data_kept :
          (n j : ℕ) (r : Text)
          → Keeps behind_index
              (if leb (j + (n + 2)) usize_max
                then (skip (n + 2) r >>= λ rest. ok (j + (n + 2), rest))
                else err overflowed)
              (if leb (j + (n + 2)) usize_max
                then (skip (n + 2) (r ++ t) >>= λ rest. ok (j + (n + 2), rest))
                else err overflowed)
      data_kept n j r = elim (Bool-cases (leb (j + (n + 2)) usize_max)) [
        | inl fits ↦ rw fits (
            Keeps-bind behind behind_index (skip (n + 2) r) (skip (n + 2) (r ++ t)) _
              (Keeps-skip (n + 2) r) (λ r'. refl))
        | inr large ↦ rw large refl
      ]

  Keeps-bulks : (argc i : ℕ) (s : Text) → Keeps (λ n. n) (bulks argc i s) (bulks argc i (s ++ t))
  unfolding bulks
  Keeps-bulks zero i s = refl
  Keeps-bulks (suc argc) i s =
      Keeps-bind behind_index (λ n. n) (bulk i s) (bulk i (s ++ t)) _ (Keeps-bulk i s)
        (λ (j, r). Keeps-bulks argc j r)

  -- More bytes behind a buffer that holds a complete command, or a number that is too large, change
  -- nothing.
  pub Keeps-resp_command_len :
      (s : Text) → Keeps (λ n. n) (resp_command_len s) (resp_command_len (s ++ t))
  unfolding resp_command_len
  Keeps-resp_command_len s =
      Keeps-bind behind (λ n. n) (marked b'*' s) (marked b'*' (s ++ t)) _ (Keeps-marked b'*' s)
        (λ r.
          Keeps-bind behind_number (λ n. n) (number_line 1 r) (number_line 1 (r ++ t)) _
            (Keeps-number_line 1 r) (λ (argc, j, r'). Keeps-bulks argc j r'))
