-- ===== src/Tests/Parser.antt =====
-- A value of the parameter Yajl, and GetMessages requests that receive with it.
use irssi_robustirc.Base.{
  ℕ, ◌≡◌, refl, sym, ap, ◌∙◌, Bool, true, false, ◌||◌, ◌==◌, List, [], ◌∷◌, ◌++◌, inl, inr,
  Bool-cases, if◌then◌else◌,
}
use mathlib.Core.List.{append_assoc}
use irssi_robustirc.Base.Text.{Str}
use irssi_robustirc.Yajl.{Yajl}
use irssi_robustirc.Messages.{Token}
use irssi_robustirc.Messages.Format.{tokens_of}
use irssi_robustirc.Tests.Streams.{line, ping}

-- A parser for which one letter is a whole message
abbrev known : ℕ → Bool
known c = c == b'L' || c == b'P'

abbrev meaning : ℕ → List Token
meaning c = if c == b'L' then tokens_of line else tokens_of ping

abbrev letters_emit : Str → List Token
letters_emit [] = []
letters_emit (c ∷ s) = let rest = letters_emit s in if known c then meaning c ++ rest else []

abbrev letters_valid : Str → Bool
letters_valid [] = true
letters_valid (c ∷ s) = let rest = letters_valid s in if known c then rest else false

pub letters_more :
    (old new : Str) → (more : List Token) × (letters_emit (old ++ new) ≡ letters_emit old ++ more)
letters_more [] new = (letters_emit new, refl)
letters_more (c ∷ old) new = elim (Bool-cases (known c)) [
  | inl k ↦
      let (more, e) = letters_more old new in
      (
        more,
        rw k (ap (λ l. meaning c ++ l) e ∙ sym (append_assoc (meaning c) (letters_emit old) more)),
      )
  | inr k ↦ ([], rw k refl)
]

pub letters_stop :
    (old new : Str)
    → letters_valid old ≡ false
    → (letters_valid (old ++ new) ≡ false) × (letters_emit (old ++ new) ≡ letters_emit old)
letters_stop [] new h = cc
letters_stop (c ∷ old) new h = elim (Bool-cases (known c)) [
  | inl k ↦
      let (invalid, same) = letters_stop old new (rw k at h) in
      rw k (invalid, ap (λ l. meaning c ++ l) same)
  | inr k ↦ rw k (refl, refl)
]

abbrev pub letters : Yajl
letters = record {
  emits = letters_emit;
  valid = letters_valid;
  emits_more = letters_more;
  stays_invalid = letters_stop;
}
