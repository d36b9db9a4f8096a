-- ===== src/Examples/FakeServer.antt =====
-- src/checks/redis.rs: the fake server of the unit tests, asked twice.
use healthkit.Base.{
  ◌≡◌, refl, true, Text, codes, List, [], ◌∷◌, ◌++◌, ok, err, length, flat_map, arith,
}
use healthkit.Duration.{format}
use healthkit.UnitTests.FakeRedis.{resp_command_len, serve, closed, incomplete}
use healthkit.UnitTests.FakeRedis.Encoded.{bulk_string, command, resp_command_len-command}
use healthkit.UnitTests.FakeRedis.Replies.{serve-replies}

abbrev line : Text → Text
line s = s ++ 13 ∷ 10 ∷ []

abbrev ping : Text
ping = line (codes "*1") ++ line (codes "$4") ++ line (codes "PING")

ping-command : command (codes "PING" ∷ []) ≡ ping
unfolding bulk_string flat_map format
ping-command = refl

incomplete_test :
    resp_command_len (line (codes "*1") ++ line (codes "$4") ++ codes "PING") ≡ err incomplete
unfolding resp_command_len
incomplete_test = refl

-- The end of the line behind the argument is not looked at.
unchecked_end_test :
    resp_command_len (line (codes "*1") ++ line (codes "$4") ++ codes "PING??") ≡ ok 14
unfolding resp_command_len
unchecked_end_test = refl

resp_command_len-command_example :
    resp_command_len (command (codes "PING" ∷ []) ++ codes "*1")
    ≡ ok (length (command (codes "PING" ∷ [])))
resp_command_len-command_example =
    resp_command_len-command (codes "PING" ∷ []) (codes "*1")
      (unfold bulk_string format flat_map in omega arith)

-- The first command and the beginning of the second one arrive together.
abbrev chunks : List Text
chunks = (ping ++ codes "*") ∷ (line (codes "1") ++ line (codes "$4") ++ line (codes "PING")) ∷ []

serve-replies_example :
    serve (λ k. true) chunks 0 [] ≡ closed (length ((codes "PING" ∷ []) ∷ (codes "PING" ∷ []) ∷ []))
serve-replies_example =
    serve-replies (λ k. true) (λ k. refl) chunks ((codes "PING" ∷ []) ∷ (codes "PING" ∷ []) ∷ [])
      (tt, (tt, tt)) (unfold bulk_string format flat_map in omega arith)
      (unfold bulk_string format flat_map in refl)
