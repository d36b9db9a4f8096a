-- ===== src/UnitTests/FakeRedis/Replies.antt =====
-- src/checks/redis.rs, `spawn_fake_redis`: how many replies the server writes.
use healthkit.Base.{
  ℕ, zero, suc, ◌+◌, ◌≤◌, ◌<◌, ◌≡◌, refl, sym, ◌∙◌, ap, ◌⊎◌, inl, inr, Bool, true, Text, List, [],
  ◌∷◌, ◌++◌, append_assoc, append-nil, Result, ok, err, length, length-append, flat_map, All, arith,
}
use healthkit.UnitTests.FakeRedis.{
  Stop, incomplete, overflowed, usize_max, resp_command_len, Served, reading, closed, drop, drain,
  serve,
}
use healthkit.UnitTests.FakeRedis.Scanned.{Keeps-resp_command_len}
use healthkit.UnitTests.FakeRedis.Bounds.{resp_command_len-le}
use healthkit.UnitTests.FakeRedis.Encoded.{command, resp_command_len-command, length-command}

-- The commands that a client can send: their lengths fit in a `usize`.
abbrev pub AllFit : List (List Text) → Type 0
AllFit = All (λ args. length (command args) ≤ usize_max)

-- The bytes of some commands.
abbrev pub stream : List (List Text) → Text
unfolding flat_map
stream = flat_map command

-- No read returns no bytes before the end of the connection.
abbrev pub IsChunk : Text → Type 0
IsChunk [] = ⊥
IsChunk (c ∷ s) = Unit

-- Of two ways to cut a text, one cuts later.
cut_later :
    (xs ys us vs : Text)
    → xs ++ ys ≡ us ++ vs
    → ((w : Text) × (xs ≡ us ++ w) × (w ++ ys ≡ vs))
      ⊎ ((c : ℕ) × (w : Text) × (us ≡ xs ++ c ∷ w) × (ys ≡ c ∷ (w ++ vs)))
cut_later [] ys [] vs e = inl ([], refl, e)
cut_later [] ys (u ∷ us) vs e = inr (u, us, refl, e)
cut_later (x ∷ xs) ys [] vs e = inl (x ∷ xs, refl, e)
cut_later (x ∷ xs) ys (u ∷ us) vs e =
    let head : x ≡ u = cc in
    let tail : xs ++ ys ≡ us ++ vs = cc in
    elim (cut_later xs ys us vs tail) [
      | inl (w, a, b) ↦ inl (w, rw (head, a) refl, b)
      | inr (c, w, a, b) ↦ inr (c, w, rw (head, a) refl, b)
    ]

drop-append : (s t : Text) → drop (length s) (s ++ t) ≡ t
drop-append [] t = refl
drop-append (c ∷ s) t = drop-append s t

no_command-prefix :
    (args : List Text) (buf : Text) (c : ℕ) (w : Text)
    → length (command args) ≤ usize_max
    → command args ≡ buf ++ c ∷ w
    → resp_command_len buf ≡ err incomplete
no_command-prefix args buf c w fits e = go (resp_command_len buf) refl
  where
    whole : resp_command_len (buf ++ c ∷ w) ≡ ok (length (command args))
    whole =
        let h = resp_command_len-command args [] fits in
        let h' : resp_command_len (command args) ≡ ok (length (command args)) =
          ap resp_command_len (sym (append-nil (command args))) ∙ h in
        ap resp_command_len (sym e) ∙ h'

    size : length (command args) ≡ length buf + suc (length w)
    size = ap length e ∙ length-append buf (c ∷ w)

    clash : {x : Result ℕ Stop} {n : ℕ} → x ≡ ok n → ¬ (x ≡ err overflowed)
    clash a b = cc

    lengths : {x : Result ℕ Stop} {n m : ℕ} → x ≡ ok m → x ≡ ok n → n ≡ m
    lengths a b = cc

    go : (o : Result ℕ Stop) → resp_command_len buf ≡ o → resp_command_len buf ≡ err incomplete
    go (err incomplete) h = h
    go (err overflowed) h =
        let k = Keeps-resp_command_len (c ∷ w) buf in
        let k' : resp_command_len (buf ++ c ∷ w) ≡ err overflowed = rw h at k in
        absurd (clash whole k')
    go (ok n) h =
        let k = Keeps-resp_command_len (c ∷ w) buf in
        let k' : resp_command_len (buf ++ c ∷ w) ≡ ok n = rw h at k in
        let same : n ≡ length (command args) = lengths whole k' in
        let (low, high) = resp_command_len-le buf n h in
        let no : ⊥ = omega (arith, size) in absurd no

module _ (writes : ℕ → Bool) (all_written : (k : ℕ) → writes k ≡ true) where
  -- The inner loop answers the commands that are complete, and waits for the rest of the others.
  abbrev Answered : Text → List (List Text) → ℕ → Served → Type 0
  Answered q cmds sent x =
      (k : ℕ) × (buf : Text) × (others : List (List Text)) × (x ≡ reading (sent + k) buf)
      × (buf ++ q ≡ stream others)
      × (k + length others ≡ length cmds)
      × AllFit others
      × (q ≡ [] → others ≡ [])

  drain_waits :
      (fuel sent : ℕ) (buf : Text)
      → resp_command_len buf ≡ err incomplete
      → drain writes (suc fuel) sent buf ≡ reading (sent + 0) buf
  unfolding drain
  drain_waits fuel sent buf e = rw (drain, e) (ap (λ n. reading n buf) (omega arith))

  drain_answers :
      (fuel sent n : ℕ) (buf : Text)
      → resp_command_len buf ≡ ok n
      → drain writes (suc fuel) sent buf ≡ drain writes fuel (suc sent) (drop n buf)
  unfolding drain
  drain_answers fuel sent n buf e = rw (drain, e, all_written sent) refl

  drain-Answered :
      (fuel sent : ℕ) (cmds : List (List Text)) (buf q : Text)
      → length buf < fuel
      → AllFit cmds
      → buf ++ q ≡ stream cmds
      → Answered q cmds sent (drain writes fuel sent buf)
  unfolding drain flat_map
  drain-Answered zero sent cmds buf q le fit e = let no : ⊥ = omega arith in absurd no
  drain-Answered (suc fuel) sent [] [] q le fit e =
      (0, [], [], ap (λ n. reading n []) (omega arith), e, refl, tt, λ h. refl)
  drain-Answered (suc fuel) sent [] (c ∷ buf) q le fit e = cc
  drain-Answered (suc fuel) sent (args ∷ cmds) buf q le fit e =
      elim (cut_later buf q (command args) (stream cmds) e) [
        | inl (w, cut, rest) ↦
            let size = ap length cut ∙ length-append (command args) w in
            let len = length-command args in
            let found = ap resp_command_len cut ∙ resp_command_len-command args w fit.0 in
            let step =
              drain_answers fuel sent (length (command args)) buf found
              ∙ ap (drain writes fuel (suc sent))
                  (ap (drop (length (command args))) cut ∙ drop-append (command args) w) in
            let (k, buf', others, ran, at, count, fits, last) =
              drain-Answered fuel (suc sent) cmds w q (omega arith) fit.1 rest in
            (
              suc k,
              buf',
              others,
              step ∙ (ran ∙ ap (λ n. reading n buf') (omega arith)),
              at,
              omega arith,
              fits,
              last,
            )
        | inr (c, w, cut, rest) ↦
            let waits = no_command-prefix args buf c w fit.0 cut in
            (0, buf, args ∷ cmds, drain_waits fuel sent buf waits, e, omega arith, fit, λ h. cc)
      ]

  -- The bytes of the commands, cut into chunks at any places, get one reply for each command.
  serve-stream :
      (chunks : List Text) (sent : ℕ) (cmds : List (List Text)) (buf : Text)
      → All IsChunk chunks
      → AllFit cmds
      → buf ++ flat_map (λ c. c) chunks ≡ stream cmds
      → serve writes chunks sent buf ≡ closed (sent + length cmds)
  unfolding serve flat_map
  serve-stream [] sent cmds buf each fit e =
      let (k, buf', others, ran, at, count, fits, last) =
        drain-Answered (suc (length buf)) sent cmds buf [] (omega arith) fit e in
      let none_left : others ≡ [] = last refl in
      let all : k + length {A = List Text} [] ≡ length cmds = rw none_left at count in
      rw (serve, ran) (ap closed (omega arith))
  serve-stream ([] ∷ chunks) sent cmds buf each fit e = absurd each.0
  serve-stream ((c ∷ chunk) ∷ chunks) sent cmds buf each fit e =
      let (k, buf', others, ran, at, count, fits, last) =
        drain-Answered (suc (length buf)) sent cmds buf _ (omega arith) fit e in
      let more =
        serve-stream chunks (sent + k) others (buf' ++ c ∷ chunk) each.1 fits
          (append_assoc buf' (c ∷ chunk) _ ∙ at) in
      rw (serve, ran) (more ∙ ap closed (omega arith))

  -- Whatever the chunks in which the bytes of some commands arrive, batched or split, the server
  -- writes exactly one reply for each command and returns at the end of the connection, if each
  -- reply can be written, no read is empty, and the length of each command fits in a `usize`.
  pub serve-replies :
      (chunks : List Text) (cmds : List (List Text))
      → All IsChunk chunks
      → AllFit cmds
      → flat_map (λ c. c) chunks ≡ stream cmds
      → serve writes chunks 0 [] ≡ closed (length cmds)
  serve-replies chunks cmds each fit e =
      serve-stream chunks 0 cmds [] each fit e ∙ ap closed (omega arith)
