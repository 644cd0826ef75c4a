-- ===== src/Tests/Bodies.antt =====
-- The body of a response at concrete chunks.
use irssi_robustirc.Base.{
  ℕ, zero, suc, ◌≡◌, refl, ap, true, List, [], ◌∷◌, ◌++◌, length, arith, some,
}
use irssi_robustirc.Base.Text.{Str, codes}
use irssi_robustirc.Body.{no_body, write_func, append_chunk, write_chunk}
use irssi_robustirc.Body.Collects.{
  IsBody, filled, Written, write_func-Written, receive, receive_response,
}
use mathlib.Core.List.{flatten}

abbrev pub junk : ℕ → Str
junk zero = []
junk (suc n) = 170 ∷ junk n

pub length-junk : (n : ℕ) → length (junk n) ≡ n
length-junk zero = refl
length-junk (suc n) = ap suc (length-junk n)

abbrev chunks : List Str
chunks = codes "{\"Session" ∷ codes "id\":" ∷ codes "\"x\"}" ∷ []

received : (receive junk chunks no_body).body ≡ some (codes "{\"Sessionid\":\"x\"}" ++ 0 ∷ [])
unfolding receive write_func write_chunk append_chunk
received = refl

write_func-Written_example :
    Written true
      (codes "abc")
      (codes "de")
      (record { body = some (codes "abc" ++ 0 ∷ []); size = 3 })
      (write_func junk true
        (codes "de")
        1
        2
        (record { body = some (codes "abc" ++ 0 ∷ []); size = 3 }))
write_func-Written_example =
    write_func-Written junk length-junk true (codes "abc") (codes "de") 1 2 _ (filled (codes "abc"))
      refl (omega arith)

receive_response_example : IsBody (flatten chunks) (receive junk chunks no_body)
unfolding flatten
receive_response_example = receive_response junk length-junk chunks (omega arith) (omega arith)
