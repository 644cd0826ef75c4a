-- ===== src/Base/Text.antt =====
-- C strings as lists of bytes: strcasecmp, the copy up to the first NUL, printf's `%d` and `%lu`.
use Prim.Native.Nat.{ℕ, zero, suc, ◌+◌, ◌/◌, ◌%◌}
use mathlib.Core.Path.{◌≡◌, refl, ap}
use mathlib.Core.Logic.{◌≢◌, inl, inr}
use irssi_robustirc.Base.Logic.{Bool-cases, ==_iff, leb, ◌==◌, if◌then◌else◌}
use irssi_robustirc.Base.Lists.{All}
use mathlib.Core.List.{◌++◌, List, [], ◌∷◌}
use mathlib.Core.Bool.{false, Bool, true, ◌&&◌}
use Prim.Native.Char.{code}
use Prim.Native.String.{String}
unfoldable use native.Mathlib.Decide.{ℕ_discrete}

abbrev pub Str : Type 0
Str = List ℕ

unfoldable pub Str-discrete : Discrete Str
unfolding ℕ_discrete
Str-discrete = hlevel ℕ_discrete

-- The bytes of an ASCII literal.
abbrev pub codes : String → Str
codes String.[] = []
codes (String.◌∷◌ c s) = code c ∷ codes s

-- What C reads of a buffer that ends in a NUL: the bytes before the first one.
unfoldable pub c_string : Str → Str
c_string [] = []
c_string (c ∷ s) = if c == 0 then [] else c ∷ c_string s

pub c_string-line : (line after : Str) → All (λ c. c ≢ 0) line → c_string (line ++ 0 ∷ after) ≡ line
unfolding c_string
c_string-line [] after h = refl
c_string-line (c ∷ line) after (h, hs) = elim (Bool-cases (c == 0)) [
  | inl nul ↦ absurd (h ((==_iff c 0).0 nul))
  | inr other ↦ rw other (ap (λ l. c ∷ l) (c_string-line line after hs))
]

-- tolower in the C locale
unfoldable pub to_lower : ℕ → ℕ
to_lower c = if leb b'A' c && leb c b'Z' then c + 32 else c

-- strcasecmp (a, b) == 0 on the bytes before the NUL
unfoldable pub eq_ignore_case : Str → Str → Bool
unfolding to_lower
eq_ignore_case [] [] = true
eq_ignore_case [] (d ∷ t) = false
eq_ignore_case (c ∷ s) [] = false
eq_ignore_case (c ∷ s) (d ∷ t) = (to_lower c == to_lower d) && eq_ignore_case s t

-- Decimal digits, most significant first; the fuel bounds their number.
decimal_from : ℕ → ℕ → Str → Str
decimal_from zero n rest = rest
decimal_from (suc f) n rest =
    let more = decimal_from f (n / 10) ((b'0' + n % 10) ∷ rest) in
    if leb n 9 then (b'0' + n) ∷ rest else more

-- `n` digits always suffice for `n`.
unfoldable pub decimal : ℕ → Str
unfolding decimal_from
decimal n = decimal_from (suc n) n []
