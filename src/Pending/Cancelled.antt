-- ===== src/Pending/Cancelled.antt =====
-- What the cancellation frees.
use irssi_robustirc.Base.{
  ℕ, suc, ◌≡◌, refl, sym, ap, subst, ◌∙◌, true, Option, none, some, List, [], ◌∷◌, ℕ_discrete,
  arith, inl, inr, Option-cases, ==_iff,
}
use irssi_robustirc.Base.Counts.{list_remove, hit_self}
use irssi_robustirc.Base.Tables.{insert, remove, insert_self, remove-insert}
use irssi_robustirc.Base.Text.{Str}
use irssi_robustirc.Session.{Callback}
use irssi_robustirc.Pending.{
  Query, RetryCtx, Pending, free_query, resolve_cancelled, free_retry, retry_cancelled,
  start_lookup, start_retry, resolves_cancelled, retries_cancelled, cancel,
}
use irssi_robustirc.Pending.Held.{
  tally, Counted, drop-Counted, Timed, drop-Timed, IsHeld, IsClear, remove-none,
}

list_remove-first : (b : ℕ) (bs : List ℕ) → list_remove b (b ∷ bs) ≡ bs
unfolding list_remove
list_remove-first b bs = rw ((==_iff b b).1 refl) refl

-- The first block of a list is live, and the others are counted by the rest of it.
first-Counted :
    {A : Type 0} (t : ℕ → Option A) (b : ℕ) (bs : List ℕ)
    → Counted t (b ∷ bs)
    → ((x : A) × (t b ≡ some x)) × Counted (remove ℕ_discrete b t) bs
first-Counted t b bs h = (
  elim (Option-cases (t b)) [
    | inl gone ↦ absurd (omega (arith, h b, ap tally gone, hit_self b))
    | inr there ↦ there
  ],
  subst (Counted (remove ℕ_discrete b t)) (list_remove-first b bs) (drop-Counted t (b ∷ bs) b h),
)

none-Counted : {A : Type 0} (t : ℕ → Option A) → Counted t [] → (b : ℕ) → t b ≡ none
none-Counted t h b = elim (Option-cases (t b)) [
  | inl gone ↦ gone
  | inr (x, e) ↦ absurd (omega (arith, h b, ap tally e))
]

-- The queries are freed, and nothing else happens.
abbrev FreesQueries : Pending → Pending → Type 0
FreesQueries p p' =
    (p'.crashed ≡ p.crashed)
    × (p'.cancelled ≡ p.cancelled)
    × (p'.retries ≡ p.retries)
    × (p'.sources ≡ p.sources)
    × (p'.lookups ≡ p.lookups)
    × ((b : ℕ) → p'.queries b ≡ none)

resolves-lem :
    (bs : List ℕ) (p : Pending) → Counted p.queries bs → FreesQueries p (resolves_cancelled bs p)
unfolding resolves_cancelled resolve_cancelled
resolves-lem [] p h = (refl, refl, refl, refl, refl, none-Counted p.queries h)
resolves-lem (b ∷ bs) p h =
    let ((q, e), rest) = first-Counted p.queries b bs h in
    let same : resolve_cancelled b p ≡ free_query b p = rw (e, resolve_cancelled) refl in
    subst (λ u. FreesQueries p (resolves_cancelled bs u)) (sym same)
      (resolves-lem bs (free_query b p) rest)

-- The contexts are freed with their timers.
abbrev FreesRetries : Pending → Pending → Type 0
FreesRetries p p' =
    (p'.crashed ≡ p.crashed)
    × (p'.cancelled ≡ p.cancelled)
    × (p'.queries ≡ p.queries)
    × (p'.lookups ≡ p.lookups)
    × ((b : ℕ) → p'.retries b ≡ none)
    × ((tag : ℕ) → p'.sources tag ≡ none)

retries-lem :
    (bs : List ℕ) (p : Pending)
    → Counted p.retries bs
    → Timed p.sources p.retries
    → FreesRetries p (retries_cancelled bs p)
unfolding retries_cancelled retry_cancelled
retries-lem [] p h timed =
    let gone = none-Counted p.retries h in
    (
      refl,
      refl,
      refl,
      refl,
      gone,
      λ tag. elim (Option-cases (p.sources tag)) [
        | inl off ↦ off
        | inr (b, e) ↦
            let (c, f, named) = timed tag b e in let bad : none ≡ some c = sym (gone b) ∙ f in cc
      ],
    )
retries-lem (b ∷ bs) p h timed =
    let ((c, e), rest) = first-Counted p.retries b bs h in
    let same : retry_cancelled b p ≡ free_retry c.timeout_id b p = rw (e, retry_cancelled) refl in
    subst (λ u. FreesRetries p (retries_cancelled bs u)) (sym same)
      (retries-lem bs (free_retry c.timeout_id b p) rest
        (drop-Timed p.sources p.retries c.timeout_id b c e refl timed))

pub cancel-IsClear :
    (p : Pending) → IsHeld p → IsClear (cancel p) × ((cancel p).lookups ≡ p.lookups)
unfolding cancel
cancel-IsClear p h =
    let first = record p { cancelled = true } in
    let middle = resolves_cancelled p.query_handlers first in
    let (crashed, cancelled, retries, sources, lookups, no_query) =
      resolves-lem p.query_handlers first h.queries_held in
    let held : Counted middle.retries p.retry_handlers = rw retries h.retries_held in
    let timed : Timed middle.sources middle.retries = rw (sources, retries) h.timed in
    let (crashed', cancelled', queries, lookups', no_retry, no_source) =
      retries-lem p.retry_handlers middle held timed in
    let same : cancel p ≡ retries_cancelled p.retry_handlers middle = rw h.running refl in
    subst (λ u. IsClear u × (u.lookups ≡ p.lookups)) (sym same)
      (
        record {
          stopped = cancelled' ∙ cancelled;
          sound = crashed' ∙ crashed ∙ h.sound;
          no_query = λ b. ap (λ t. t b) queries ∙ no_query b;
          no_retry = no_retry;
          no_source = no_source;
        },
        lookups' ∙ lookups,
      )

-- A block that is made after the cancellation is freed at once.
gone-again :
    {A : Type 0} (t : ℕ → Option A) (b : ℕ) (x : A)
    → ((c : ℕ) → t c ≡ none)
    → (c : ℕ) → remove ℕ_discrete b (insert ℕ_discrete b x t) c ≡ none
gone-again t b x h c = ap (λ u. u c) (remove-insert ℕ_discrete b x t) ∙ remove-none t b c (h c)

pub start_lookup-IsClear :
    (address : Str) (p : Pending) → IsClear p → IsClear (start_lookup address p)
unfolding start_lookup resolve_cancelled
start_lookup-IsClear address p h =
    let b = p.next_block in
    let q : Query = record { query_address = address } in
    let made = record p { next_block = suc b; queries = insert ℕ_discrete b q p.queries } in
    let same : start_lookup address p ≡ free_query b made =
      rw h.stopped (rw (insert_self ℕ_discrete b q p.queries, resolve_cancelled) refl) in
    subst IsClear (sym same) (record {
      stopped = h.stopped;
      sound = h.sound;
      no_query = gone-again p.queries b q h.no_query;
      no_retry = h.no_retry;
      no_source = h.no_source;
    })

pub start_retry-IsClear :
    (address : Str) (cb : Callback) (p : Pending) → IsClear p → IsClear (start_retry address cb p)
unfolding start_retry retry_cancelled
start_retry-IsClear address cb p h =
    let b = p.next_block in
    let tag = p.next_tag in
    let ctx : RetryCtx = record {
      retry_address = address;
      retry_callback = cb;
      timeout_id = tag;
    } in
    let made = record p {
      next_block = suc b;
      next_tag = suc tag;
      retries = insert ℕ_discrete b ctx p.retries;
      sources = insert ℕ_discrete tag b p.sources;
    } in
    let same : start_retry address cb p ≡ free_retry tag b made =
      rw h.stopped (rw (insert_self ℕ_discrete b ctx p.retries, retry_cancelled) refl) in
    subst IsClear (sym same) (record {
      stopped = h.stopped;
      sound = h.sound;
      no_query = h.no_query;
      no_retry = gone-again p.retries b ctx h.no_retry;
      no_source = gone-again p.sources tag b h.no_source;
    })
