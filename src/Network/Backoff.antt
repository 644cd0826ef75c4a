-- ===== src/Network/Backoff.antt =====
-- The exponential backoff: robustsession_network_failed and robustsession_network_succeeded.
use irssi_robustirc.Base.Tables.{
  remove-insert, insert-insert, insert, remove, insert_self, insert_ne, remove_self, remove_ne,
}
use native.Mathlib.Nat.{mod-lt}
use irssi_robustirc.Base.{
  ℕ, zero, suc, ◌+◌, ◌^◌, ◌≤◌, ◌≡◌, ◌≢◌, refl, sym, ap, ◌∙◌, inl, inr, true, Option, none, some,
  List, [], ◌∷◌, arith, length, Option-cases, min,
}
use irssi_robustirc.Base.Text.{Str, Str-discrete}
use irssi_robustirc.Glib.{Glib}
use irssi_robustirc.Network.{
  BackoffState, NetworkCtx, Networks, is_available, raise_exponent, next_backoff, network_failed,
  network_succeeded,
}

abbrev pub exponent_of : Option BackoffState → ℕ
exponent_of none = 0
exponent_of (some b) = b.exponent

-- The exponent is between 1 and 6, and the next attempt at most 2^6 + 6 seconds away.
pub record IsCapped (now : ℕ) (b : BackoffState) : Type 0 where
  pub raised : 1 ≤ b.exponent
  pub capped : b.exponent ≤ 6
  pub near : b.next ≤ now + 70

-- The delays 2^e + rand % (e + 1) lie between 2^e and 2^e + e.
pub delay_bounds :
    (now rand : ℕ) (old : Option BackoffState)
    → let b = next_backoff now rand old in
      (now + 2 ^ b.exponent ≤ b.next) × (b.next ≤ now + 2 ^ b.exponent + b.exponent)
unfolding next_backoff
delay_bounds now rand old = omega (arith, mod-lt rand {m = raise_exponent old + 1} (omega arith))

pub exponent-next_backoff :
    (now rand : ℕ) (old : Option BackoffState)
    → exponent_of old ≤ 6
    → (next_backoff now rand old).exponent ≡ min (suc (exponent_of old)) 6
unfolding next_backoff
exponent-next_backoff now rand none h = refl
exponent-next_backoff now rand (some b) h = ground arith

pow_le : (e : ℕ) → e ≤ 6 → 2 ^ e + e ≤ 70
pow_le zero h = omega arith
pow_le (suc zero) h = omega arith
pow_le (suc (suc zero)) h = omega arith
pow_le (suc (suc (suc zero))) h = omega arith
pow_le (suc (suc (suc (suc zero)))) h = omega arith
pow_le (suc (suc (suc (suc (suc zero))))) h = omega arith
pow_le (suc (suc (suc (suc (suc (suc zero)))))) h = omega arith
pow_le (suc (suc (suc (suc (suc (suc (suc n))))))) h = absurd (omega arith)

pub next_backoff-IsCapped :
    (now rand : ℕ) (old : Option BackoffState)
    → exponent_of old ≤ 6
    → IsCapped now (next_backoff now rand old)
next_backoff-IsCapped now rand old h =
    let e = exponent-next_backoff now rand old h in
    let capped : (next_backoff now rand old).exponent ≤ 6 = omega (arith, e) in
    record {
      raised = omega (arith, e);
      capped = capped;
      near = omega (arith, delay_bounds now rand old, pow_le _ capped);
    }

module _ (g : Glib) where
  open g use {strdown}

  -- What robustsession_network_failed makes of the network's entry.
  abbrev pub after_failure : ℕ → ℕ → Str → NetworkCtx → NetworkCtx
  after_failure now rand target ctx = record ctx {
    backoff = insert Str-discrete target (next_backoff now rand (ctx.backoff target)) ctx.backoff;
  }

  lookup-network_failed :
      (now rand : ℕ) (address target : Str) (networks : Networks) (ctx : NetworkCtx)
      → networks (strdown address) ≡ some ctx
      → network_failed g now rand address target networks (strdown address)
        ≡ some (after_failure now rand target ctx)
  unfolding network_failed
  lookup-network_failed now rand address target networks ctx e =
      rw (e, network_failed)
        (insert_self Str-discrete (strdown address) (after_failure now rand target ctx) networks)

  network_failed_known :
      (now rand : ℕ) (address target : Str) (networks : Networks) (ctx : NetworkCtx)
      → networks (strdown address) ≡ some ctx
      → network_failed g now rand address target networks
        ≡ insert Str-discrete (strdown address) (after_failure now rand target ctx) networks
  unfolding network_failed
  network_failed_known now rand address target networks ctx e = rw (e, network_failed) refl

  network_failed_unknown :
      (now rand : ℕ) (address target : Str) (networks : Networks)
      → networks (strdown address) ≡ none
      → network_failed g now rand address target networks ≡ networks
  unfolding network_failed
  network_failed_unknown now rand address target networks e = rw (e, network_failed) refl

  abbrev pub after_success : Str → NetworkCtx → NetworkCtx
  after_success target ctx = record ctx { backoff = remove Str-discrete target ctx.backoff }

  network_succeeded_known :
      (address target : Str) (networks : Networks) (ctx : NetworkCtx)
      → networks (strdown address) ≡ some ctx
      → network_succeeded g address target networks
        ≡ insert Str-discrete (strdown address) (after_success target ctx) networks
  unfolding network_succeeded
  network_succeeded_known address target networks ctx e = rw (e, network_succeeded) refl

  stored_failure :
      (now rand : ℕ) (target : Str) (ctx : NetworkCtx)
      → (after_failure now rand target ctx).backoff target
        ≡ some (next_backoff now rand (ctx.backoff target))
  stored_failure now rand target ctx = insert_self Str-discrete target _ ctx.backoff

  -- Failures of one server, each at its time and with its random number, oldest first.
  pub failures : Str → Str → List (ℕ × ℕ) → Networks → Networks
  failures address target [] networks = networks
  failures address target ((now, rand) ∷ fs) networks =
      failures address target fs (network_failed g now rand address target networks)

  failures-exponent :
      (address target : Str) (fs : List (ℕ × ℕ)) (networks : Networks) (ctx : NetworkCtx)
      → networks (strdown address) ≡ some ctx
      → exponent_of (ctx.backoff target) ≤ 6
      → (ctx' : NetworkCtx) × (failures address target fs networks (strdown address) ≡ some ctx')
        × (ctx'.servers ≡ ctx.servers)
        × (exponent_of (ctx'.backoff target) ≡ min (exponent_of (ctx.backoff target) + length fs) 6)
  unfolding failures
  failures-exponent address target [] networks ctx e h = (ctx, e, refl, omega arith)
  failures-exponent address target ((now, rand) ∷ fs) networks ctx e h =
      let old : Option BackoffState = ctx.backoff target in
      let step : NetworkCtx = after_failure now rand target ctx in
      let lifted : exponent_of (step.backoff target) ≡ min (suc (exponent_of old)) 6 =
        rw (stored_failure now rand target ctx) (exponent-next_backoff now rand old h) in
      let (ctx', found, same, ex) =
        failures-exponent address target fs _ step
          (lookup-network_failed now rand address target networks ctx e) (omega (arith, lifted)) in
      (ctx', found, same, omega (arith, lifted, ex))

  -- After any number of failures in a row and one more, the server's exponent counts them up to
  -- 6, and its next attempt is between 2^e and 2^e + e seconds after the last failure.
  pub failures_back_off :
      (address target : Str) (fs : List (ℕ × ℕ)) (now rand : ℕ) (networks : Networks)
      (ctx : NetworkCtx)
      → networks (strdown address) ≡ some ctx
      → ctx.backoff target ≡ none
      → (ctx' : NetworkCtx) × (b : BackoffState) × (network_failed g now rand address target
            (failures address target fs networks)
            (strdown address)
          ≡ some ctx')
        × (ctx'.servers ≡ ctx.servers)
        × (ctx'.backoff target ≡ some b)
        × (b.exponent ≡ min (suc (length fs)) 6)
        × (now + 2 ^ b.exponent ≤ b.next)
        × (b.next ≤ now + 2 ^ b.exponent + b.exponent)
  failures_back_off address target fs now rand networks ctx e new =
      let start : exponent_of (ctx.backoff target) ≡ 0 = rw new refl in
      let (ctx', found, same, ex) =
        failures-exponent address target fs networks ctx e (omega (arith, start)) in
      let (low, high) = delay_bounds now rand (ctx'.backoff target) in
      (
        after_failure now rand target ctx',
        next_backoff now rand (ctx'.backoff target),
        lookup-network_failed now rand address target _ ctx' found,
        same,
        stored_failure now rand target ctx',
        omega (
          arith,
          start,
          ex,
          exponent-next_backoff now rand (ctx'.backoff target) (omega (arith, ex)),
        ),
        low,
        high,
      )

  -- A success forgets all failures of the server: what the calls before it stored does not matter.
  pub succeeded-failed :
      (now rand : ℕ) (address target : Str) (networks : Networks)
      → network_succeeded g address target (network_failed g now rand address target networks)
        ≡ network_succeeded g address target networks
  succeeded-failed now rand address target networks =
      elim (Option-cases (networks (strdown address))) [
        | inl e ↦
            ap (network_succeeded g address target)
              (network_failed_unknown now rand address target networks e)
        | inr (ctx, e) ↦
            let key : Str = strdown address in
            let step : NetworkCtx = after_failure now rand target ctx in
            network_succeeded_known address target _ step
              (lookup-network_failed now rand address target networks ctx e)
            ∙ ap (insert Str-discrete key (after_success target step))
                (network_failed_known now rand address target networks ctx e)
            ∙ insert-insert Str-discrete key (after_success target step) step networks
            ∙ ap
                (λ (b : Str → Option BackoffState).
                  insert Str-discrete key (record ctx { backoff = b }) networks)
                (remove-insert Str-discrete target _ ctx.backoff)
            ∙ sym (network_succeeded_known address target networks ctx e)
      ]

  -- After a success the server may be used at any time; the queue is as it was, and so are the
  -- states of the other servers and all other networks.
  pub network_succeeded-up :
      (address target : Str) (networks : Networks) (ctx : NetworkCtx)
      → networks (strdown address) ≡ some ctx
      → (ctx' : NetworkCtx) × (network_succeeded g address target networks (strdown address)
          ≡ some ctx')
        × (ctx'.servers ≡ ctx.servers)
        × ((now : ℕ) → is_available (ctx'.backoff target) now ≡ true)
        × ((other : Str) → target ≢ other → ctx'.backoff other ≡ ctx.backoff other)
        × ((key : Str)
            → strdown address ≢ key
            → network_succeeded g address target networks key ≡ networks key)
  network_succeeded-up address target networks ctx e =
      rw (network_succeeded_known address target networks ctx e) (
        after_success target ctx,
        insert_self Str-discrete (strdown address) (after_success target ctx) networks,
        refl,
        λ now. rw (remove_self Str-discrete target ctx.backoff) refl,
        λ other h. remove_ne Str-discrete target ctx.backoff other h,
        λ key h. insert_ne Str-discrete (strdown address) (after_success target ctx) networks key h,
      )
