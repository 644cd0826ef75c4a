-- ===== src/Body/Collects.antt =====
-- The body is the chunks in a row and a NUL, and no position outside the block is written.
use mathlib.Core.List.{flatten, append_assoc, append-nil}
use irssi_robustirc.Base.{
  All, tests, Bool-cases, inl, inr, ◌⊎◌, ℕ, ◌+◌, ◌*◌, ◌^◌, ◌≡◌, ◌≤◌, ◌<◌, refl, Bool, true, false,
  none, some, List, [], ◌∷◌, ◌++◌, ltb, if◌then◌else◌, length, length-append, arith,
}
use irssi_robustirc.Body.Blocks.{take-append, take_all, length-drop, room_lem, ltb-false, copies}
use irssi_robustirc.Body.{
  room_for, write_chunk, append_chunk, BodyBuffer, size_mod, take, drop, realloc, write_func,
  no_body,
}
use native.Mathlib.Nat.{mod-eq_of_lt}
use irssi_robustirc.Base.Text.{Str}

-- The block holds `size` bytes and a NUL, or there is no block yet.
pub data IsBody : Str → BodyBuffer → Type 0 where
  fresh : IsBody [] no_body
  filled :
      (bytes : Str) → IsBody bytes (record { body = some (bytes ++ 0 ∷ []); size = length bytes })

-- What a call does with a chunk: refused, lost, or taken.
abbrev pub Written : Bool → Str → Str → BodyBuffer → BodyBuffer × ℕ → Type 0
Written memory bytes chunk buffer r =
    ((size_mod ≤ length bytes + length chunk + 1) × (r ≡ (buffer, 0)))
    ⊎ ((length bytes + length chunk + 1 < size_mod)
        × (memory ≡ false)
        × (r ≡ (record buffer { body = none }, 0)))
    ⊎ ((length bytes + length chunk + 1 < size_mod)
        × (memory ≡ true)
        × (r.1 ≡ length chunk)
        × IsBody (bytes ++ chunk) r.0)

size_lem : {bytes : Str} {buffer : BodyBuffer} → IsBody bytes buffer → buffer.size ≡ length bytes
size_lem fresh = refl
size_lem (filled bytes) = refl

taken :
    (bytes chunk : Str) (buffer : BodyBuffer) (r : BodyBuffer × ℕ)
    → length bytes + length chunk + 1 < size_mod
    → Written true bytes chunk buffer r
    → IsBody (bytes ++ chunk) r.0
taken bytes chunk buffer r fits (inl (full, _)) = absurd (omega arith)
taken bytes chunk buffer r fits (inr (inl (_, memory, _))) = cc
taken bytes chunk buffer r fits (inr (inr (_, _, _, body))) = body

-- The calls of libcurl for the chunks of a response, while there is memory.
unfoldable pub receive : (ℕ → Str) → List Str → BodyBuffer → BodyBuffer
receive junk [] buffer = buffer
receive junk (chunk ∷ chunks) buffer =
    receive junk chunks (write_func junk true chunk 1 (length chunk) buffer).0

module _ (junk : ℕ → Str) (junk_length : (n : ℕ) → length (junk n) ≡ n) where
  length-realloc : (old : Str) (n : ℕ) → length old ≤ n → length (realloc junk (some old) n) ≡ n
  length-realloc old n h = rw (take_all n old h) (
      omega (
        arith,
        length-append old (drop (length old) (junk n)),
        length-drop (length old) (junk n),
        junk_length n,
      ))

  -- The block that write_func fills: long enough, and with the old bytes in front.
  grown :
      {bytes : Str} {buffer : BodyBuffer} (n : ℕ)
      → IsBody bytes buffer
      → length bytes < n
      → (length (realloc junk buffer.body n) ≡ n)
        × (take (length bytes) (realloc junk buffer.body n) ≡ bytes)
        × (buffer.size ≡ length bytes)
  grown n fresh h = (junk_length n, refl, refl)
  grown n (filled bytes) h =
      let fits : length (bytes ++ 0 ∷ []) ≤ n = omega (arith, length-append bytes (0 ∷ [])) in
      (
        length-realloc (bytes ++ 0 ∷ []) n fits,
        rw (take_all n (bytes ++ 0 ∷ []) fits)
            (rw (append_assoc bytes (0 ∷ [])) (take-append bytes _)),
        refl,
      )

  append_chunk-IsBody :
      (bytes chunk : Str) (buffer : BodyBuffer)
      → IsBody bytes buffer
      → length bytes + length chunk + 1 < size_mod
      → IsBody (bytes ++ chunk) (append_chunk junk chunk (length chunk) buffer)
  unfolding append_chunk
  append_chunk-IsBody bytes chunk buffer body fits =
      let (long, front, same) = grown (length bytes + length chunk + 1) body (omega arith) in
      rw
        (
          same,
          mod-eq_of_lt fits,
          mod-eq_of_lt {n = length bytes + length chunk} {m = size_mod} (omega arith),
          take_all (length chunk) chunk (omega arith),
          copies bytes chunk _ long front,
          ← length-append bytes chunk,
        )
        (filled (bytes ++ chunk))

  write_chunk-Written :
      (memory : Bool) (bytes chunk : Str) (buffer : BodyBuffer)
      → IsBody bytes buffer
      → length chunk < 2 ^ 14
      → Written memory bytes chunk buffer (write_chunk junk memory chunk (length chunk) buffer)
  unfolding write_chunk
  write_chunk-Written memory bytes chunk buffer body small =
      elim (Bool-cases (ltb (room_for (length chunk)) buffer.size)) [
        | inl full ↦
            rw full (inl (omega (tests, full, size_lem body, room_lem (length chunk) small), refl))
        | inr room ↦ rw room (
            written memory
              (omega (arith, ltb-false _ _ room, size_lem body, room_lem (length chunk) small)))
      ]
    where
      written :
          (m : Bool)
          → length bytes + length chunk + 1 < size_mod
          → Written m bytes chunk buffer (
              if m
              then (append_chunk junk chunk (length chunk) buffer, length chunk)
              else (record buffer { body = none }, 0))
      written true fits =
          inr (inr (fits, refl, refl, append_chunk-IsBody bytes chunk buffer body fits))
      written false fits = inr (inl (fits, refl, refl))

  -- A chunk of fewer than 2^14 bytes is refused, with the buffer as it was, if the new size and
  -- the NUL would pass SIZE_MAX. Without memory none of it is taken and the body is lost.
  -- Otherwise all of it is taken, and the block holds the bytes so far, the chunk and a NUL.
  pub write_func-Written :
      (memory : Bool) (bytes chunk : Str) (size nmemb : ℕ) (buffer : BodyBuffer)
      → IsBody bytes buffer
      → size * nmemb ≡ length chunk
      → length chunk < 2 ^ 14
      → Written memory bytes chunk buffer (write_func junk memory chunk size nmemb buffer)
  unfolding write_func
  write_func-Written memory bytes chunk size nmemb buffer body product small =
      rw (product, mod-eq_of_lt {n = length chunk} {m = size_mod} (omega arith))
        (write_chunk-Written memory bytes chunk buffer body small)

  receive-IsBody :
      (chunks : List Str) (bytes : Str) (buffer : BodyBuffer)
      → IsBody bytes buffer
      → All (λ c. length c < 2 ^ 14) chunks
      → length bytes + length (flatten chunks) + 1 < size_mod
      → IsBody (bytes ++ flatten chunks) (receive junk chunks buffer)
  unfolding receive flatten
  receive-IsBody [] bytes buffer body small fits = rw (append-nil bytes) body
  receive-IsBody (chunk ∷ chunks) bytes buffer body small fits =
      rw (← append_assoc bytes chunk (flatten chunks)) (
        receive-IsBody chunks (bytes ++ chunk) _
          (taken bytes chunk buffer _ (omega (arith, length-append chunk (flatten chunks))) (
            write_func-Written true bytes chunk 1 (length chunk) buffer body (omega arith) small.0))
          small.1 (omega (arith, length-append chunk (flatten chunks), length-append bytes chunk)))

  -- A response whose size and NUL fit a size_t, received in chunks of fewer than 2^14 bytes by a
  -- request that has no body yet, ends up in the body whole, in order, and ended by a NUL.
  pub receive_response :
      (chunks : List Str)
      → All (λ c. length c < 2 ^ 14) chunks
      → length (flatten chunks) + 1 < size_mod
      → IsBody (flatten chunks) (receive junk chunks no_body)
  receive_response chunks small fits = receive-IsBody chunks [] no_body fresh small (omega arith)
