-- ===== src/Base/Tables.antt =====
-- A GHashTable as a function from its keys, of which `none` are absent.
use mathlib.Core.Path.{◌≡◌, refl, ap, fun_ext, sym, ◌∙◌}
use mathlib.Core.Logic.{◌≢◌, ◌⊎◌, inl, inr, ite, if_pos, if_neg}
use mathlib.Core.Option.{Option, none, some}

module _ {ℓ κ} {K : Type ℓ} {V : Type κ} where
  -- g_hash_table_new
  abbrev pub empty : K → Option V
  empty k = none

module _ {ℓ κ} {K : Type ℓ} {V : Type κ} (dec : Discrete K) where
  -- g_hash_table_insert and g_hash_table_replace
  abbrev pub insert : K → V → (K → Option V) → K → Option V
  insert k v t j = ite (dec k j) (some v) (t j)

  -- g_hash_table_remove
  abbrev pub remove : K → (K → Option V) → K → Option V
  remove k t j = ite (dec k j) none (t j)

  pub insert_self : (k : K) (v : V) (t : K → Option V) → insert k v t k ≡ some v
  insert_self k v t = if_pos (dec k k) refl _ _

  pub insert_ne : (k : K) (v : V) (t : K → Option V) (j : K) → k ≢ j → insert k v t j ≡ t j
  insert_ne k v t j h = if_neg (dec k j) h _ _

  pub remove_self : (k : K) (t : K → Option V) → remove k t k ≡ none
  remove_self k t = if_pos (dec k k) refl _ _

  pub remove_ne : (k : K) (t : K → Option V) (j : K) → k ≢ j → remove k t j ≡ t j
  remove_ne k t j h = if_neg (dec k j) h _ _

  -- A key that has the value already
  pub insert_same : (k : K) (v : V) (t : K → Option V) → t k ≡ some v → insert k v t ≡ t
  insert_same k v t e = fun_ext (λ j. elim (dec k j) [
    | yes same ↦ if_pos (dec k j) same _ _ ∙ sym e ∙ ap t same
    | no other ↦ if_neg (dec k j) other _ _
  ])

  pub insert-insert :
      (k : K) (v w : V) (t : K → Option V) → insert k v (insert k w t) ≡ insert k v t
  insert-insert k v w t = fun_ext (λ j. over j (dec k j))
    where
      over :
          (j : K) (d : Dec (k ≡ j)) → ite d (some v) (ite d (some w) (t j)) ≡ ite d (some v) (t j)
      over j (yes e) = refl
      over j (no h) = refl

  pub remove-insert : (k : K) (v : V) (t : K → Option V) → remove k (insert k v t) ≡ remove k t
  remove-insert k v t = fun_ext (λ j. over j (dec k j))
    where
      over : (j : K) (d : Dec (k ≡ j)) → ite d none (ite d (some v) (t j)) ≡ ite d none (t j)
      over j (yes e) = refl
      over j (no h) = refl

  pub remove-remove : (k : K) (t : K → Option V) → remove k (remove k t) ≡ remove k t
  remove-remove k t = fun_ext (λ j. over j (dec k j))
    where
      over : (j : K) (d : Dec (k ≡ j)) → ite d none (ite d none (t j)) ≡ ite d none (t j)
      over j (yes e) = refl
      over j (no h) = refl

  -- What a table with one entry more, or less, can hold.
  pub insert-cases :
      (k : K) (v : V) (t : K → Option V) (j : K) {c : V}
      → insert k v t j ≡ some c
      → ((k ≡ j) × (v ≡ c)) ⊎ (t j ≡ some c)
  insert-cases k v t j {c} e = elim (dec k j) [
    | yes same ↦ let p : some v ≡ some c = sym (if_pos (dec k j) same _ _) ∙ e in inl (same, cc)
    | no other ↦ inr (sym (if_neg (dec k j) other _ _) ∙ e)
  ]

  pub remove-cases :
      (k : K) (t : K → Option V) (j : K) {c : V} → remove k t j ≡ some c → t j ≡ some c
  remove-cases k t j e = elim (dec k j) [
    | yes same ↦ let gone = sym (if_pos (dec k j) same _ _) ∙ e in cc
    | no other ↦ sym (if_neg (dec k j) other _ _) ∙ e
  ]
