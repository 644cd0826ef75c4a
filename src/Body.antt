-- ===== src/Body.antt =====
-- src/core/robustsession/robustsession.c: write_func, the libcurl callback that collects the body of
-- a response, and the reset of the body in retry_request.
pub mod Blocks
pub mod Collects
use irssi_robustirc.Base.{
  ℕ, zero, suc, ◌+◌, ◌-◌, ◌*◌, ◌^◌, ◌%◌, ◌≡◌, Bool, true, false, Option, none, some, List, [], ◌∷◌,
  ◌++◌, ltb, if◌then◌else◌, length,
}
use irssi_robustirc.Base.Text.{Str}

-- struct t_body_buffer; the block that `body` points to is the list of its bytes.
pub record BodyBuffer : Type 0 where
  pub body : Option Str
  pub size : ℕ

-- One more than SIZE_MAX.
abbrev pub size_mod : ℕ
size_mod = 2 ^ 64

abbrev pub take : ℕ → Str → Str
take zero s = []
take (suc n) [] = []
take (suc n) (c ∷ s) = c ∷ take n s

abbrev pub drop : ℕ → Str → Str
drop zero s = s
drop (suc n) [] = []
drop (suc n) (c ∷ s) = drop n s

-- realloc to n bytes: the old bytes that fit, and unknown ones of `junk` after them.
abbrev pub realloc : (ℕ → Str) → Option Str → ℕ → Str
realloc junk none n = junk n
realloc junk (some old) n = take n old ++ drop (length old) (junk n)

-- memcpy of the bytes to a position of the block
abbrev pub copy_to : ℕ → Str → Str → Str
copy_to at src block = take at block ++ (src ++ drop (at + length src) block)

-- `SIZE_MAX - realsize - 1`, which wraps as a size_t
abbrev pub room_for : ℕ → ℕ
room_for realsize = (size_mod - 1 + size_mod - realsize - 1) % size_mod

-- The realloc, the memcpy of the chunk behind the old bytes, and the NUL behind it.
unfoldable pub append_chunk : (ℕ → Str) → Str → ℕ → BodyBuffer → BodyBuffer
append_chunk junk chunk realsize buffer =
    let block = realloc junk buffer.body ((buffer.size + realsize + 1) % size_mod) in
    let filled = copy_to buffer.size (take realsize chunk) block in
    record {
      body = some (copy_to ((buffer.size + realsize) % size_mod) (0 ∷ []) filled);
      size = (buffer.size + realsize) % size_mod;
    }

-- The new buffer and the number of bytes taken. `memory` says whether realloc finds memory.
unfoldable pub write_chunk : (ℕ → Str) → Bool → Str → ℕ → BodyBuffer → BodyBuffer × ℕ
write_chunk junk memory chunk realsize buffer =
    if ltb (room_for realsize) buffer.size
    then (buffer, 0)
    else if memory
    then (append_chunk junk chunk realsize buffer, realsize)
    else (record buffer { body = none }, 0)

-- write_func at a chunk of size * nmemb bytes
unfoldable pub write_func : (ℕ → Str) → Bool → Str → ℕ → ℕ → BodyBuffer → BodyBuffer × ℕ
write_func junk memory chunk size nmemb buffer =
    write_chunk junk memory chunk (size * nmemb % size_mod) buffer

-- The reset in retry_request, and what g_new0 gives.
abbrev pub no_body : BodyBuffer
no_body = record { body = none; size = 0 }
