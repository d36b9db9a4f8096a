-- ===== src/UnitTests/FakeRedis.antt =====
-- src/checks/redis.rs, the fake server of its unit tests: it reads RESP commands from a connection
-- and writes one reply for each.
pub mod Scanned
pub mod Bounds
pub mod Encoded
pub mod Replies
use healthkit.Base.{
  ℕ, zero, suc, ◌+◌, ◌-◌, ◌*◌, ◌^◌, Bool, ◌&&◌, Text, List, [], ◌∷◌, ◌++◌, Option, none, some,
  Result, ok, err, length, leb, ◌==◌, if◌then◌else◌,
}

-- Why there is no length: the buffer holds no complete command, or a number does not fit in a
-- `usize`, at which the test build unwinds.
pub data Stop : Type 0 where
  incomplete overflowed : Stop

abbrev pub usize_max : ℕ
usize_max = 2 ^ 64 - 1

abbrev pub digit : ℕ → Bool
digit c = leb 48 c && leb c 57

-- `?` behind a step of the scan.
infixl 5 ◌>>=◌
abbrev pub ◌>>=◌ : {A B : Type 0} → Result A Stop → (A → Result B Stop) → Result B Stop
ok a >>= f = f a
err e >>= f = err e

-- The loop over the digits: the number, the index behind it, and the buffer from there on.
unfoldable pub number : ℕ → ℕ → Text → Result (ℕ × ℕ × Text) Stop
number n i [] = ok (n, i, [])
number n i (c ∷ rest) =
    let next : ℕ = n * 10 + (c - 48) in
    let more = number next (suc i) rest in
    if digit c then (if leb next usize_max then more else err overflowed) else ok (n, i, c ∷ rest)

-- The check for `\r\n`, and the step over it.
unfoldable pub line_end : ℕ → Text → Result (ℕ × Text) Stop
line_end i [] = err incomplete
line_end i (c ∷ []) = err incomplete
line_end i (c ∷ d ∷ rest) = if c == 13 && d == 10 then ok (i + 2, rest) else err incomplete

-- Digits and the end of their line.
unfoldable pub number_line : ℕ → Text → Result (ℕ × ℕ × Text) Stop
unfolding number line_end
number_line i rest = do (n, i, rest) ← number 0 i rest; (i, rest) ← line_end i rest; ok (n, i, rest)

-- The rest of the buffer behind `n` bytes, if it has as many.
unfoldable pub skip : ℕ → Text → Result Text Stop
skip zero rest = ok rest
skip (suc n) [] = err incomplete
skip (suc n) (c ∷ rest) = skip n rest

-- The marker of a bulk string.
unfoldable pub marked : ℕ → Text → Result Text Stop
marked m [] = err incomplete
marked m (c ∷ rest) = if c == m then ok rest else err incomplete

-- A round of the loop over the arguments.
unfoldable pub bulk : ℕ → Text → Result (ℕ × Text) Stop
unfolding number_line skip marked
bulk i rest = do
  rest ← marked b'$' rest
  (arg_len, i, rest) ← number_line (suc i) rest
  if leb (i + (arg_len + 2)) usize_max
      then (do rest ← skip (arg_len + 2) rest; ok (i + (arg_len + 2), rest))
      else err overflowed

unfoldable pub bulks : ℕ → ℕ → Text → Result ℕ Stop
unfolding bulk
bulks zero i rest = ok i
bulks (suc argc) i rest = bulk i rest >>= λ (i, rest). bulks argc i rest

unfoldable pub resp_command_len : Text → Result ℕ Stop
unfolding marked number_line bulks
resp_command_len buf = do
  rest ← marked b'*' buf
  (argc, i, rest) ← number_line 1 rest
  bulks argc i rest

-- What the server comes to: it waits for bytes, it has returned, or it has unwound; with the number
-- of replies it has written.
pub data Served : Type 0 where
  reading : ℕ → Text → Served
  closed panicked : ℕ → Served

abbrev pub drop : ℕ → Text → Text
drop zero s = s
drop (suc n) [] = []
drop (suc n) (c ∷ s) = drop n s

-- `writes k`: whether the reply behind `k` others can be written.
module _ (writes : ℕ → Bool) where
  -- The inner loop, on fuel above the length of the buffer: a command has at least one byte.
  unfoldable pub drain : ℕ → ℕ → Text → Served
  unfolding resp_command_len
  drain zero sent buf = reading sent buf
  drain (suc fuel) sent buf = elim (resp_command_len buf) [
    | ok consumed ↦
        let rest = drain fuel (suc sent) (drop consumed buf) in
        if writes sent then rest else closed sent
    | err incomplete ↦ reading sent buf
    | err overflowed ↦ panicked sent
  ]

  -- The outer loop, over the chunks that the reads return; after them, the connection ends. A read
  -- of no bytes is its end, too.
  unfoldable pub serve : List Text → ℕ → Text → Served
  unfolding drain
  serve [] sent buf = elim (drain (suc (length buf)) sent buf) [
    | reading sent' buf' ↦ closed sent'
    | closed sent' ↦ closed sent'
    | panicked sent' ↦ panicked sent'
  ]
  serve (chunk ∷ chunks) sent buf = elim (drain (suc (length buf)) sent buf) [
    | reading sent' buf' ↦ elim chunk [
      | [] ↦ closed sent'
      | c ∷ cs ↦ serve chunks sent' (buf' ++ c ∷ cs)
    ]
    | closed sent' ↦ closed sent'
    | panicked sent' ↦ panicked sent'
  ]
