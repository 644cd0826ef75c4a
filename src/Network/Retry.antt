-- ===== src/Network/Retry.antt =====
-- The timer that robustsession_network_server sets: its length, and what the retry finds.
use irssi_robustirc.Base.{
  subst, leb→le, ℕ, ◌+◌, ◌-◌, ◌≤◌, ◌<◌, ◌≡◌, ◌≢◌, refl, sym, ◌∙◌, inl, inr, Bool, true, false,
  Option, some, List, [], ◌∷◌, leb, arith, All, Option-cases,
}
use mathlib.Core.List.{mem-cons, not-mem-nil, Mem}
use mathlib.Core.List.Perm
use mathlib.Core.Logic.Or
use mathlib.Core.HLevel.{⊥_prop}
use irssi_robustirc.Base.Text.{Str, Str-discrete}
use irssi_robustirc.Base.Tables.{insert_self}
use irssi_robustirc.Glib.{Glib}
use irssi_robustirc.Network.{
  BackoffState, NetworkCtx, Networks, Outcome, call, later, dropped, network_server, is_available,
}
use irssi_robustirc.Network.Selection.{IsUp, IsDown, wait_of}
use irssi_robustirc.Network.Waiting.{IsNear, Answers, network_server-Answers}
use irssi_robustirc.Network.Bounded.{IsCappedCtx, IsSound}

wait-le :
    (now : ℕ) (ctx : NetworkCtx) (s : Str)
    → IsCappedCtx now ctx
    → wait_of ctx.backoff now (ctx.backoff s) ≤ 70
wait-le now ctx s h = elim (Option-cases (ctx.backoff s)) [
  | inl e ↦ rw e (omega arith)
  | inr (b, e) ↦ rw e (omega (arith, h s b e))
]

IsNear-of_capped :
    (now : ℕ) (ctx : NetworkCtx) (s : Str) → IsCappedCtx now ctx → IsNear ctx.backoff now s
IsNear-of_capped now ctx s h = omega (arith, wait-le now ctx s h)

IsNear-later :
    (now pause : ℕ) (ctx : NetworkCtx) (s : Str)
    → IsCappedCtx now ctx
    → IsNear ctx.backoff (now + pause) s
IsNear-later now pause ctx s h = elim (Option-cases (ctx.backoff s)) [
  | inl e ↦ rw e (omega arith)
  | inr (b, e) ↦ rw e (omega (arith, h s b e))
]

nonempty_of_mem : {x : Str} (xs : List Str) → Mem x xs → (y : Str) × (ys : List Str) × (xs ≡ y ∷ ys)
nonempty_of_mem [] m = absurd (not-mem-nil m)
nonempty_of_mem (y ∷ ys) m = (y, ys, refl)

call≢later : {s : Str} {d : ℕ} → call s ≢ later d
call≢later e = cc

dropped≢later : {d : ℕ} → dropped ≢ later d
dropped≢later e = cc

later-injective : {c d : ℕ} → later c ≡ later d → c ≡ d
later-injective e = cc

module _ (backoff : Str → Option BackoffState) where
  not-All_down :
      (t : ℕ) (xs : List Str) (x : Str)
      → All (IsDown backoff t) xs
      → Mem x xs
      → is_available (backoff x) t ≡ true
      → ⊥
  not-All_down t [] x down m up = not-mem-nil m
  not-All_down t (y ∷ xs) x ((b, e, lt), down) m up =
      Or.elim ⊥_prop (mem-cons.0 m)
        (λ same.
          let here : leb b.next t ≡ true = rw e at (rw same at up) in
          omega (arith, leb→le b.next t here))
        (λ inside. not-All_down t xs x down inside up)

  -- The timer of an answer ends when the head of the queue is up, or before.
  delay-le-wait :
      (now : ℕ) (cancelled : Bool) (s : Str) (rest queue : List Str) (o : Outcome) (d : ℕ)
      → Answers backoff now cancelled (s ∷ rest) queue o
      → o ≡ later d
      → (0 < d) × (d ≤ wait_of backoff now (backoff s))
  delay-le-wait now cancelled s rest queue o d (inl (x, xs, e, _, _)) h =
      absurd (call≢later (sym e ∙ h))
  delay-le-wait now cancelled s rest queue o d (inr (inl (_, e, _))) h =
      absurd (dropped≢later (sym e ∙ h))
  delay-le-wait now cancelled s rest queue o d (inr (inr (d', _, e, positive, before, _))) h =
      let same : d' ≡ d = later-injective (sym e ∙ h) in
      let (b, f, lt) = (before (now + d' - 1) (omega arith)).0 in (omega arith, rw f (omega arith))

  later-IsUp :
      (now : ℕ) (s : Str) (rest queue : List Str) (o : Outcome) (d : ℕ)
      → Answers backoff now false (s ∷ rest) queue o
      → o ≡ later d
      → (x : Str) × Mem x (s ∷ rest) × IsUp backoff (now + d) x
  later-IsUp now s rest queue o d (inl (x, xs, e, _, _)) h = absurd (call≢later (sym e ∙ h))
  later-IsUp now s rest queue o d (inr (inl (e, _, _))) h = cc
  later-IsUp now s rest queue o d (inr (inr (d', _, e, _, _, (x, m, up)))) h =
      (x, m, subst (λ (t : ℕ). IsUp backoff (now + t) x) (later-injective (sym e ∙ h)) up)

  -- Served again when the timer ends, with the states as they were, the queue has a server.
  Answers-call :
      (now : ℕ) (s : Str) (rest queue : List Str) (o : Outcome) (x : Str)
      → Answers backoff now false (s ∷ rest) queue o
      → Mem x (s ∷ rest)
      → IsUp backoff now x
      → (y : Str) × (o ≡ call y) × IsUp backoff now y
  Answers-call now s rest queue o x (inl (y, xs, e, _, up)) m h = (y, e, up)
  Answers-call now s rest queue o x (inr (inl (e, _, _))) m h = cc
  Answers-call now s rest queue o x (inr (inr (d, _, e, positive, before, _))) m h =
      absurd (not-All_down now (s ∷ rest) x (before now (omega arith)) m h)

module _ (g : Glib) where
  open g use {strdown}

  -- In a sound table, a timer runs between 1 and 70 seconds.
  pub delay_bounded :
      (now : ℕ) (cancelled : Bool) (address : Str) (random : Bool) (networks : Networks)
      (ctx : NetworkCtx) (s : Str) (rest : List Str) (d : ℕ)
      → IsSound g now networks
      → networks (strdown address) ≡ some ctx
      → ctx.servers ≡ s ∷ rest
      → (network_server g (λ _. now) cancelled address random networks).1 ≡ later d
      → (0 < d) × (d ≤ 70)
  delay_bounded now cancelled address random networks ctx s rest d sound e f h =
      let capped = (sound _ ctx e).1 in
      let (queue, answers, _, _) =
        network_server-Answers g now cancelled address random networks ctx s rest e f
          (IsNear-of_capped now ctx s capped) in
      let (positive, le) = delay-le-wait ctx.backoff now cancelled s rest queue _ d answers h in
      (positive, omega (arith, le, wait-le now ctx s capped))

  -- If a request waits on a timer of d seconds, then the call that the timer makes, d seconds
  -- later and with no other call in between, runs the callback for a server that is up.
  pub retry_runs :
      (now : ℕ) (address : Str) (random : Bool) (networks : Networks) (ctx : NetworkCtx) (s : Str)
      (rest : List Str) (d : ℕ)
      → IsSound g now networks
      → networks (strdown address) ≡ some ctx
      → ctx.servers ≡ s ∷ rest
      → (network_server g (λ _. now) false address random networks).1 ≡ later d
      → (y : Str) × ((network_server g
            (λ _. now + d)
            false
            address
            random
            (network_server g (λ _. now) false address random networks).0).1
          ≡ call y)
        × IsUp ctx.backoff (now + d) y
  retry_runs now address random networks ctx s rest d sound e f h =
      let capped = (sound _ ctx e).1 in
      let (queue, answers, perm, stored) =
        network_server-Answers g now false address random networks ctx s rest e f
          (IsNear-of_capped now ctx s capped) in
      let (x, mem, up) = later-IsUp ctx.backoff now s rest queue _ d answers h in
      let (y, ys, shape) = nonempty_of_mem queue ((Perm.mem_iff perm).0 mem) in
      let ctx' : NetworkCtx = record ctx { servers = queue } in
      let again =
        network_server-Answers g (now + d) false address random
          (network_server g (λ _. now) false address random networks).0 ctx' y ys
          (rw stored (insert_self Str-discrete (strdown address) ctx' networks)) shape
          (IsNear-later now d ctx y capped) in
      Answers-call ctx.backoff (now + d) y ys again.0 _ x again.1
        (rw shape at ((Perm.mem_iff perm).0 mem)) up
