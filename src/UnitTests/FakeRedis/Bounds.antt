-- ===== src/UnitTests/FakeRedis/Bounds.antt =====
-- src/checks/redis.rs, `resp_command_len`: where a command ends.
use healthkit.Base.{
  ℕ, zero, suc, ◌+◌, ◌-◌, ◌*◌, ◌≤◌, ◌≡◌, ◌&&◌, Text, [], ◌∷◌, Result, ok, err, length, leb, ◌==◌,
  Bool-cases, inl, inr, arith, if◌then◌else◌,
}
use healthkit.UnitTests.FakeRedis.{
  Stop, overflowed, ◌>>=◌, usize_max, digit, number, line_end, number_line, skip, marked, bulk,
  bulks, resp_command_len,
}
use healthkit.UnitTests.FakeRedis.Scanned.{ended}

-- What holds of the value, if there is one.
abbrev pub Meets : {A : Type 0} → (A → Type 0) → Result A Stop → Type 0
Meets P (ok a) = P a
Meets P (err e) = Unit

Meets-bind :
    {A B : Type 0} (P : A → Type 0) (Q : B → Type 0) (x : Result A Stop) (f : A → Result B Stop)
    → Meets P x
    → ((a : A) → P a → Meets Q (f a))
    → Meets Q (x >>= f)
Meets-bind P Q (ok a) f k l = l a k
Meets-bind P Q (err e) f k l = tt

Meets-weaken :
    {A : Type 0} (P Q : A → Type 0) (x : Result A Stop)
    → ((a : A) → P a → Q a)
    → Meets P x
    → Meets Q x
Meets-weaken P Q (ok a) l k = l a k
Meets-weaken P Q (err e) l k = tt

-- The index and the bytes behind it make up the buffer.
module _ (total : ℕ) where
  abbrev At : ℕ → Text → Type 0
  At i s = i + length s ≡ total

  -- An index from `least` on.
  abbrev From : ℕ → ℕ × Text → Type 0
  From least (i, s) = At i s × (least ≤ i)

  abbrev Numbered : ℕ → ℕ × ℕ × Text → Type 0
  Numbered least (n, i, s) = At i s × (least ≤ i)

  Meets-marked : (m i : ℕ) (s : Text) → At i s → Meets (At (suc i)) (marked m s)
  unfolding marked
  Meets-marked m i [] h = tt
  Meets-marked m i (c ∷ s) h = elim (Bool-cases (c == m)) [
    | inl same ↦ rw same (omega arith)
    | inr other ↦ rw other tt
  ]

  Meets-ended : (n i : ℕ) (s : Text) → At i s → Meets (Numbered (i + 2)) (ended (n, i, s))
  unfolding line_end
  Meets-ended n i [] h = tt
  Meets-ended n i (c ∷ []) h = tt
  Meets-ended n i (c ∷ d ∷ s) h = elim (Bool-cases (c == 13 && d == 10)) [
    | inl ends ↦ rw ends (omega arith, omega arith)
    | inr other ↦ rw other tt
  ]

  Meets-number : (n i : ℕ) (s : Text) → At i s → Meets (Numbered (i + 2)) (number n i s >>= ended)
  unfolding number
  Meets-number n i [] h = Meets-ended n i [] h
  Meets-number n i (c ∷ s) h = elim (Bool-cases (digit c)) [
    | inl is ↦ elim (Bool-cases (leb (n * 10 + (c - 48)) usize_max)) [
      | inl fits ↦
          rw (is, fits)
            (Meets-weaken (Numbered (suc i + 2)) (Numbered (i + 2)) _
              (λ (m, j, r) k. (k.0, omega (arith, k.1)))
              (Meets-number (n * 10 + (c - 48)) (suc i) s (omega arith)))
      | inr large ↦ rw (is, large) tt
    ]
    | inr other ↦ rw other (Meets-ended n i (c ∷ s) h)
  ]

  Meets-skip : (n i : ℕ) (s : Text) → At i s → Meets (At (i + n)) (skip n s)
  unfolding skip
  Meets-skip zero i s h = omega arith
  Meets-skip (suc n) i [] h = tt
  Meets-skip (suc n) i (c ∷ s) h =
      Meets-weaken (At (suc i + n)) (At (i + suc n)) (skip n s) (λ r k. omega arith)
        (Meets-skip n (suc i) s (omega arith))

  Meets-bulk : (i : ℕ) (s : Text) → At i s → Meets (From i) (bulk i s)
  unfolding bulk number_line
  Meets-bulk i s h =
      Meets-bind (At (suc i)) (From i) (marked b'$' s) _ (Meets-marked b'$' i s h) (λ r at.
        Meets-bind (Numbered (suc i + 2)) (From i) (number_line (suc i) r) _
          (Meets-number 0 (suc i) r at) (λ (n, j, r') k. data_meets n j r' k.0 k.1))
    where
      data_meets :
          (n j : ℕ) (r : Text)
          → At j r
          → suc i + 2 ≤ j
          → Meets (From i) (
              if leb (j + (n + 2)) usize_max
              then (skip (n + 2) r >>= λ rest. ok (j + (n + 2), rest))
              else err overflowed)
      data_meets n j r at le = elim (Bool-cases (leb (j + (n + 2)) usize_max)) [
        | inl fits ↦ rw fits (
            Meets-bind (At (j + (n + 2))) (From i) (skip (n + 2) r) _ (Meets-skip (n + 2) j r at)
              (λ r' at'. (at', omega arith)))
        | inr large ↦ rw large tt
      ]

  Meets-bulks :
      (argc i : ℕ) (s : Text) → At i s → Meets (λ n. (i ≤ n) × (n ≤ total)) (bulks argc i s)
  unfolding bulks
  Meets-bulks zero i s h = (omega arith, omega arith)
  Meets-bulks (suc argc) i s h =
      Meets-bind (From i) (λ n. (i ≤ n) × (n ≤ total)) (bulk i s) _ (Meets-bulk i s h)
        (λ (j, r) k.
          Meets-weaken (λ n. (j ≤ n) × (n ≤ total)) (λ n. (i ≤ n) × (n ≤ total)) (bulks argc j r)
            (λ n l. (omega (arith, k.1, l.0), l.1)) (Meets-bulks argc j r k.0))

Meets-resp_command_len : (s : Text) → Meets (λ n. (3 ≤ n) × (n ≤ length s)) (resp_command_len s)
unfolding resp_command_len number_line
Meets-resp_command_len s =
    Meets-bind (At (length s) 1) (λ n. (3 ≤ n) × (n ≤ length s)) (marked b'*' s) _
      (Meets-marked (length s) b'*' 0 s (omega arith))
      (λ r at.
        Meets-bind (Numbered (length s) 3) (λ n. (3 ≤ n) × (n ≤ length s)) (number_line 1 r) _
          (Meets-number (length s) 0 1 r at)
          (λ (argc, j, r') k.
            Meets-weaken (λ n. (j ≤ n) × (n ≤ length s)) (λ n. (3 ≤ n) × (n ≤ length s))
              (bulks argc j r') (λ n l. (omega (arith, k.1, l.0), l.1))
              (Meets-bulks (length s) argc j r' k.0)))

-- The length of a command is at least that of its first line, and not more than the buffer holds.
pub resp_command_len-le : (s : Text) (n : ℕ) → resp_command_len s ≡ ok n → (3 ≤ n) × (n ≤ length s)
resp_command_len-le s n e = let h = Meets-resp_command_len s in rw e at h
