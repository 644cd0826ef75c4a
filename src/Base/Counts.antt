-- ===== src/Base/Counts.antt =====
-- How often a number is in a list, and g_list_remove.
use Prim.Native.Nat.{ℕ, ◌+◌, ◌-◌, ◌≤◌}
use mathlib.Core.Path.{◌≡◌}
use mathlib.Core.Logic.{◌≢◌, inl, inr}
use mathlib.Core.Bool.{true, false}
use mathlib.Core.List.{List, [], ◌∷◌, ◌++◌}
use native.Mathlib.Omega.{arith}
use irssi_robustirc.Base.Logic.{◌==◌, if◌then◌else◌, Bool-cases}

-- g_list_remove
unfoldable pub list_remove : ℕ → List ℕ → List ℕ
list_remove x [] = []
list_remove x (y ∷ ys) = if x == y then ys else y ∷ list_remove x ys

abbrev pub hit : ℕ → ℕ → ℕ
hit x c = if x == c then 1 else 0

-- How often a handle is in a list.
abbrev pub count : ℕ → List ℕ → ℕ
count c [] = 0
count c (x ∷ xs) = hit x c + count c xs

pub hit_self : (c : ℕ) → hit c c ≡ 1
hit_self c = ground arith

pub hit_eq : (x c : ℕ) → x ≡ c → hit x c ≡ 1
hit_eq x c same = ground arith

pub hit_ne : (x c : ℕ) → x ≢ c → hit x c ≡ 0
hit_ne x c h = ground arith

hit_small : (x c : ℕ) → hit x c ≤ 1
hit_small x c = ground arith

pub count-append : (c : ℕ) (xs ys : List ℕ) → count c (xs ++ ys) ≡ count c xs + count c ys
count-append c [] ys = omega arith
count-append c (x ∷ xs) ys = omega (arith, count-append c xs ys)

pub count-list_remove : (c x : ℕ) (l : List ℕ) → count c (list_remove x l) ≡ count c l - hit x c
unfolding list_remove
count-list_remove c x [] = omega arith
count-list_remove c x (y ∷ ys) = elim (Bool-cases (x == y)) [
  | inl same ↦ rw same (over x y c (count c ys) same)
  | inr other ↦ rw other (apart x y c (count c ys) _ other (count-list_remove c x ys))
]
  where
    over : (x y c n : ℕ) → (x == y) ≡ true → n ≡ (hit y c + n) - hit x c
    over x y c n same = ground arith

    apart :
        (x y c n m : ℕ) → (x == y) ≡ false → m ≡ n - hit x c → hit y c + m ≡ (hit y c + n) - hit x c
    apart x y c n m other e = ground arith
