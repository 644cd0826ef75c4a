-- ===== src/Body/Blocks.antt =====
-- Blocks of memory as lists of bytes: what the writes of write_func leave in one.
use mathlib.Core.List.{append_assoc}
use irssi_robustirc.Base.{
  ℕ, zero, suc, ◌+◌, ◌-◌, ◌^◌, ◌≡◌, ◌≤◌, ◌<◌, refl, ap, false, [], ◌∷◌, ◌++◌, ltb, length,
  length-append, arith,
}
use irssi_robustirc.Base.Text.{Str}
use irssi_robustirc.Body.{size_mod, take, drop, copy_to, room_for}

pub take-append : (s t : Str) → take (length s) (s ++ t) ≡ s
take-append [] t = refl
take-append (c ∷ s) t = ap (◌∷◌ c) (take-append s t)

pub drop_past : (n : ℕ) (s : Str) → length s ≤ n → drop n s ≡ []
drop_past zero [] h = refl
drop_past (suc n) [] h = refl
drop_past zero (c ∷ s) h = absurd (omega arith)
drop_past (suc n) (c ∷ s) h = drop_past n s (omega arith)

pub take_all : (n : ℕ) (s : Str) → length s ≤ n → take n s ≡ s
take_all zero [] h = refl
take_all (suc n) [] h = refl
take_all zero (c ∷ s) h = absurd (omega arith)
take_all (suc n) (c ∷ s) h = ap (◌∷◌ c) (take_all n s (omega arith))

pub length-drop : (n : ℕ) (s : Str) → length (drop n s) ≡ length s - n
length-drop zero s = omega arith
length-drop (suc n) [] = omega arith
length-drop (suc n) (c ∷ s) = omega (arith, length-drop n s)

pub room_lem : (c : ℕ) → c < 2 ^ 14 → room_for c ≡ size_mod - 2 - c
room_lem c h = omega arith

pub ltb-false : (a b : ℕ) → ltb a b ≡ false → b ≤ a
ltb-false a b h = ground arith

-- The two writes into a block that is just long enough.
pub copies :
    (bytes chunk block : Str)
    → length block ≡ length bytes + length chunk + 1
    → take (length bytes) block ≡ bytes
    → copy_to (length bytes + length chunk) (0 ∷ []) (copy_to (length bytes) chunk block)
      ≡ (bytes ++ chunk) ++ 0 ∷ []
copies bytes chunk block len pre =
    rw
      (
        pre,
        ← length-append bytes chunk,
        ← append_assoc bytes chunk rest,
        take-append (bytes ++ chunk) rest,
      )
      (ap (λ (t : Str). (bytes ++ chunk) ++ 0 ∷ t) past)
  where
    rest : Str
    rest = drop (length (bytes ++ chunk)) block

    past : drop (length (bytes ++ chunk) + 1) ((bytes ++ chunk) ++ rest) ≡ []
    past = drop_past _ ((bytes ++ chunk) ++ rest) (
        omega (
          arith,
          len,
          length-append bytes chunk,
          length-append (bytes ++ chunk) rest,
          length-drop (length (bytes ++ chunk)) block,
        ))
