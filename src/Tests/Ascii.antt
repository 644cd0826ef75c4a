-- ===== src/Tests/Ascii.antt =====
-- The string functions of GLib on ASCII text: a value of the parameter Glib.
use irssi_robustirc.Base.{
  ◌+◌, ◌*◌, ◌%◌, ◌^◌, ℕ, suc, ◌≡◌, ◌↔◌, refl, ap, ap₂, List, [], ◌∷◌, map, ◌==◌, if◌then◌else◌,
  length, arith, ite, if_pos,
}
use irssi_robustirc.Base.Int.{ℤ, pos}
use irssi_robustirc.Base.Text.{Str, Str-discrete, to_lower}
use irssi_robustirc.Glib.{Glib}

abbrev pub lower : Str → Str
lower = map to_lower

to_lower_twice : (c : ℕ) → to_lower (to_lower c) ≡ to_lower c
unfolding to_lower
to_lower_twice c = ground arith

pub lower_twice : (s : Str) → lower (lower s) ≡ lower s
lower_twice [] = refl
lower_twice (c ∷ s) = ap₂ ◌∷◌ (to_lower_twice c) (lower_twice s)

pub length-lower : (s : Str) → length (lower s) ≡ length s
length-lower [] = refl
length-lower (c ∷ s) = ap suc (length-lower s)

abbrev pub cons_first : ℕ → List Str → List Str
cons_first c [] = (c ∷ []) ∷ []
cons_first c (s ∷ ss) = (c ∷ s) ∷ ss

abbrev pub split : Str → List Str
split [] = [] ∷ []
split (c ∷ s) = let rest = split s in if c == b',' then [] ∷ rest else cons_first c rest

abbrev pub strip_front : Str → Str
strip_front [] = []
strip_front (c ∷ s) = let rest = strip_front s in if c == b' ' then rest else c ∷ s

abbrev pub add_back : ℕ → Str → Str
add_back c [] = if c == b' ' then [] else c ∷ []
add_back c (d ∷ s) = c ∷ d ∷ s

abbrev pub strip_back : Str → Str
strip_back [] = []
strip_back (c ∷ s) = add_back c (strip_back s)

-- 0 if the two texts agree but for case.
abbrev pub compare_lower : Str → Str → ℕ → ℤ
compare_lower s t n = ite (Str-discrete (lower s) (lower t)) (pos 0) (pos 1)

pub compare_lower_iff :
    (s t : Str) → length s ≡ length t → (compare_lower s t (length s) ≡ pos 0) ↔ (lower s ≡ lower t)
compare_lower_iff s t len =
    (λ h. ground arith, λ h. if_pos (Str-discrete (lower s) (lower t)) h _ _)

-- The hash of djb, from the value that it has reached
abbrev djb_from : ℕ → Str → ℕ
djb_from h [] = h
djb_from h (c ∷ s) = djb_from ((h * 33 + c) % 2 ^ 32) s

abbrev djb_hash : Str → ℕ
djb_hash s = djb_from 5381 s

unfoldable pub ascii : Glib
unfolding to_lower
ascii = record {
  strdown = lower;
  split_commas = split;
  strstrip = λ s. strip_front (strip_back s);
  strncasecmp = compare_lower;
  str_hash = djb_hash;
  strdown-strdown = lower_twice;
  length-strdown = length-lower;
  strncasecmp_iff = compare_lower_iff;
}
