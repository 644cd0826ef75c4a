-- ===== src/Pending/Held.antt =====
-- What holds before and after the cancellation.
use irssi_robustirc.Base.Counts.{
  hit_eq, list_remove, count, hit_ne, count-append, count-list_remove,
}
use irssi_robustirc.Base.{
  ℕ, suc, ◌≤◌, ◌≡◌, sym, ap, ◌∙◌, true, false, Option, none, some, List, [], ◌∷◌, ◌++◌, ℕ_discrete,
  arith, inl, inr, Option-cases, some_eq,
}
use irssi_robustirc.Base.Tables.{
  insert, remove, insert_self, insert_ne, remove_self, remove_ne, remove-cases,
}
use irssi_robustirc.Pending.{RetryCtx, Pending}

-- 1 for what is there
abbrev pub tally {ℓ} : {A : Type ℓ} → Option A → ℕ
tally none = 0
tally (some x) = 1

-- A table of live blocks, each of them counted once in a list
abbrev pub Counted {ℓ} : {A : Type ℓ} → (ℕ → Option A) → List ℕ → Type 0
Counted t bs = (b : ℕ) → count b bs ≡ tally (t b)

module _ {ℓ} {A : Type ℓ} where
  pub add-Counted :
      (t : ℕ → Option A) (bs : List ℕ) (b : ℕ) (x : A)
      → t b ≡ none
      → Counted t bs
      → Counted (insert ℕ_discrete b x t) (bs ++ b ∷ [])
  add-Counted t bs b x fresh h c = elim (ℕ_discrete b c) [
    | yes same ↦
        let none_yet : count c bs ≡ 0 = h c ∙ ap tally (ap t (sym same) ∙ fresh) in
        let now : tally (insert ℕ_discrete b x t c) ≡ 1 =
          rw (← same) (ap tally (insert_self ℕ_discrete b x t)) in
        now-first c bs b none_yet same ∙ sym now
    | no other ↦
        let same : tally (insert ℕ_discrete b x t c) ≡ tally (t c) =
          ap tally (insert_ne ℕ_discrete b x t c other) in
        omega (arith, h c, same, hit_ne b c other, count-append c bs (b ∷ []))
  ]
    where
      now-first :
          (c : ℕ) (bs : List ℕ) (b : ℕ) → count c bs ≡ 0 → b ≡ c → count c (bs ++ b ∷ []) ≡ 1
      now-first c bs b e same = omega (arith, e, hit_eq b c same, count-append c bs (b ∷ []))

  pub drop-Counted :
      (t : ℕ → Option A) (bs : List ℕ) (b : ℕ)
      → Counted t bs
      → Counted (remove ℕ_discrete b t) (list_remove b bs)
  drop-Counted t bs b h c = elim (ℕ_discrete b c) [
    | yes same ↦
        let now : tally (remove ℕ_discrete b t c) ≡ 0 =
          rw (← same) (ap tally (remove_self ℕ_discrete b t)) in
        omega (arith, h c, now, hit_eq b c same, count-list_remove c b bs, small (t c))
    | no other ↦
        let same : tally (remove ℕ_discrete b t c) ≡ tally (t c) =
          ap tally (remove_ne ℕ_discrete b t c other) in
        omega (arith, h c, same, hit_ne b c other, count-list_remove c b bs)
  ]
    where
      small : (o : Option A) → tally o ≤ 1
      small none = omega arith
      small (some x) = omega arith

-- A list of live blocks without repetitions
abbrev pub Listed {ℓ} : {A : Type ℓ} → (ℕ → Option A) → List ℕ → Type 0
Listed t bs = (b : ℕ) → count b bs ≤ tally (t b)

module _ {ℓ} {A : Type ℓ} where
  pub tally_small : (o : Option A) → tally o ≤ 1
  tally_small none = omega arith
  tally_small (some x) = omega arith

  pub add-Listed :
      (t : ℕ → Option A) (bs : List ℕ) (b : ℕ) (x : A)
      → t b ≡ none
      → Listed t bs
      → Listed (insert ℕ_discrete b x t) (bs ++ b ∷ [])
  add-Listed t bs b x fresh h c = elim (ℕ_discrete b c) [
    | yes same ↦
        let none_yet : tally (t c) ≡ 0 = ap tally (ap t (sym same) ∙ fresh) in
        let now : tally (insert ℕ_discrete b x t c) ≡ 1 =
          rw (← same) (ap tally (insert_self ℕ_discrete b x t)) in
        omega (arith, h c, none_yet, now, hit_eq b c same, count-append c bs (b ∷ []))
    | no other ↦
        let kept : tally (insert ℕ_discrete b x t c) ≡ tally (t c) =
          ap tally (insert_ne ℕ_discrete b x t c other) in
        omega (arith, h c, kept, hit_ne b c other, count-append c bs (b ∷ []))
  ]

  pub drop-Listed :
      (t : ℕ → Option A) (bs : List ℕ) (b : ℕ)
      → Listed t bs
      → Listed (remove ℕ_discrete b t) (list_remove b bs)
  drop-Listed t bs b h c = elim (ℕ_discrete b c) [
    | yes same ↦
        let now : tally (remove ℕ_discrete b t c) ≡ 0 =
          rw (← same) (ap tally (remove_self ℕ_discrete b t)) in
        omega (arith, h c, now, hit_eq b c same, count-list_remove c b bs, tally_small (t c))
    | no other ↦
        let kept : tally (remove ℕ_discrete b t c) ≡ tally (t c) =
          ap tally (remove_ne ℕ_discrete b t c other) in
        omega (arith, h c, kept, hit_ne b c other, count-list_remove c b bs)
  ]

-- A running timer is for a live context that names it.
abbrev pub Timed : (ℕ → Option ℕ) → (ℕ → Option RetryCtx) → Type 0
Timed sources retries =
    (tag b : ℕ)
    → sources tag ≡ some b
    → (c : RetryCtx) × (retries b ≡ some c) × (c.timeout_id ≡ tag)

-- Before the cancellation: every live block has one handler, and the resolver refers to live queries.
pub record IsHeld (p : Pending) : Type 0 where
  pub running : p.cancelled ≡ false
  pub sound : p.crashed ≡ false
  pub queries_held : Counted p.queries p.query_handlers
  pub retries_held : Counted p.retries p.retry_handlers
  pub timed : Timed p.sources p.retries
  pub new_query : (b : ℕ) → p.next_block ≤ b → p.queries b ≡ none
  pub new_retry : (b : ℕ) → p.next_block ≤ b → p.retries b ≡ none
  pub looked : Listed p.queries p.lookups

-- After it: nothing is left.
pub record IsClear (p : Pending) : Type 0 where
  pub stopped : p.cancelled ≡ true
  pub sound : p.crashed ≡ false
  pub no_query : (b : ℕ) → p.queries b ≡ none
  pub no_retry : (b : ℕ) → p.retries b ≡ none
  pub no_source : (tag : ℕ) → p.sources tag ≡ none

pub drop-Timed :
    (sources : ℕ → Option ℕ) (retries : ℕ → Option RetryCtx) (tag b : ℕ) (c : RetryCtx)
    → retries b ≡ some c
    → c.timeout_id ≡ tag
    → Timed sources retries
    → Timed (remove ℕ_discrete tag sources) (remove ℕ_discrete b retries)
drop-Timed sources retries tag b c e named h id b' f = elim (ℕ_discrete tag id) [
  | yes same ↦
      let gone : remove ℕ_discrete tag sources id ≡ none =
        rw (← same) (remove_self ℕ_discrete tag sources) in
      cc
  | no other ↦
      let (c', e', named') = h id b' (remove-cases ℕ_discrete tag sources id f) in
      elim (ℕ_discrete b b') [
        | yes same ↦
            let both : c ≡ c' = some_eq (sym e ∙ ap retries same ∙ e') in
            absurd (other (sym named ∙ ap (λ (x : RetryCtx). x.timeout_id) both ∙ named'))
        | no apart ↦ (c', remove_ne ℕ_discrete b retries b' apart ∙ e', named')
      ]
]

-- A new block beside the old ones
pub fresh-insert :
    {A : Type 0} (t : ℕ → Option A) (next : ℕ) (x : A)
    → ((b : ℕ) → next ≤ b → t b ≡ none)
    → (b : ℕ) → suc next ≤ b
    → insert ℕ_discrete next x t b ≡ none
fresh-insert t next x h b later =
    insert_ne ℕ_discrete next x t b (λ same. omega (arith, later, same))
    ∙ h b (omega (arith, later))

pub remove-none :
    {A : Type 0} (t : ℕ → Option A) (b c : ℕ) → t c ≡ none → remove ℕ_discrete b t c ≡ none
remove-none t b c e = elim (Option-cases (remove ℕ_discrete b t c)) [
  | inl gone ↦ gone
  | inr (x, f) ↦ let bad : none ≡ some x = sym e ∙ remove-cases ℕ_discrete b t c f in cc
]
