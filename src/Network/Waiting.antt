-- ===== src/Network/Waiting.antt =====
-- How long robustsession_network_server waits if no server of the queue is up.
use irssi_robustirc.Base.Text.{Str-discrete, Str}
use irssi_robustirc.Network.{
  insert, NetworkCtx, Networks, network_server, Glib, BackoffState, Search, Outcome, call, later,
  dropped, choose, settle,
}
use irssi_robustirc.Base.{
  All-rotate, rotate-perm, ℕ, ◌+◌, ◌-◌, ◌^◌, ◌≤◌, ◌<◌, ◌≡◌, refl, ap, ◌⊎◌, inl, inr, Bool, true,
  false, Option, some, List, [], ◌∷◌, ◌++◌, ltb, arith, All, Bool-cases, Option-cases,
}
use irssi_robustirc.Network.Selection.{
  shorter, IsUp, IsDown, wait_of, shortest, Scanned, scan-Scanned, IsUp-or-IsDown, not-up_of_down,
}
use mathlib.Core.List.{Perm, Mem, mem-cons_self, mem-cons_of_mem}
use mathlib.Core.List.Perm
use native.Mathlib.Nat.{mod-eq_of_lt}

module _ (backoff : Str → Option BackoffState) (now : ℕ) where
  -- The wait of a server is a guint.
  abbrev pub IsNear : Str → Type 0
  IsNear s = wait_of backoff now (backoff s) < 2 ^ 32

  shortest-le : (m : ℕ) (q : List Str) → shortest backoff now m q ≤ m
  unfolding shortest
  shortest-le m [] = omega arith
  shortest-le m (s ∷ q) = ground (arith, shortest-le (shorter backoff now m s) q)

  wait_of_down :
      (s : Str) (b : BackoffState)
      → backoff s ≡ some b
      → wait_of backoff now (backoff s) ≡ b.next - now
  wait_of_down s b e = rw e refl

  -- No server is up before the shortest wait is over.
  All-shortest :
      (m : ℕ) (q : List Str) (t : ℕ)
      → All (IsDown backoff now) q
      → t < now + shortest backoff now m q
      → All (IsDown backoff t) q
  unfolding shortest
  All-shortest m [] t down h = tt
  All-shortest m (s ∷ q) t ((b, e, lt), down) h = (
    (b, e, ground (arith, shortest-le (shorter backoff now m s) q, wait_of_down s b e)),
    All-shortest (shorter backoff now m s) q t down h,
  )

  shortest_reached :
      (m : ℕ) (q : List Str)
      → (shortest backoff now m q ≡ m)
        ⊎ ((s : Str) × Mem s q × (wait_of backoff now (backoff s) ≡ shortest backoff now m q))
  unfolding shortest
  shortest_reached m [] = inl refl
  shortest_reached m (s ∷ q) = elim (shortest_reached (shorter backoff now m s) q) [
    | inr (x, mem, e) ↦ inr (x, mem-cons_of_mem s mem, e)
    | inl e ↦ elim (Bool-cases (ltb (wait_of backoff now (backoff s)) m)) [
      | inl less ↦ inr (s, mem-cons_self, ground arith)
      | inr more ↦ inl (ground arith)
    ]
  ]

  -- What a call answers while the clock stands at `now`: the server that it picks is up, and at the
  -- head of the queue; or none is up, and the timer ends at the first second in which one is.
  abbrev pub Answers : Bool → List Str → List Str → Outcome → Type 0
  Answers cancelled queue queue' outcome =
      ((s : Str) × (rest : List Str) × (outcome ≡ call s)
        × (queue' ≡ s ∷ rest)
        × IsUp backoff now s)
      ⊎ ((cancelled ≡ true) × (outcome ≡ dropped) × All (IsDown backoff now) queue)
      ⊎ ((d : ℕ) × (cancelled ≡ false)
          × (outcome ≡ later d)
          × (0 < d)
          × ((t : ℕ) → t < now + d → All (IsDown backoff t) queue)
          × ((s : Str) × Mem s queue × IsUp backoff (now + d) s))

  shortest-le-wait :
      (m n : ℕ) (q : List Str)
      → n ≤ shortest backoff now m q
      → All (λ s. n ≤ wait_of backoff now (backoff s)) q
  unfolding shortest
  shortest-le-wait m n [] h = tt
  shortest-le-wait m n (s ∷ q) h = (
    ground (arith, shortest-le (shorter backoff now m s) q),
    shortest-le-wait (shorter backoff now m s) n q h,
  )

  IsUp-after_wait :
      (s : Str) (d : ℕ) → wait_of backoff now (backoff s) ≡ d → IsUp backoff (now + d) s
  IsUp-after_wait s d h = elim (Option-cases (backoff s)) [
    | inl e ↦ rw e refl
    | inr (b, e) ↦ let w : b.next - now ≡ d = rw e at h in rw e (ground arith)
  ]

  positive_shortest :
      (m : ℕ) (q : List Str) → 0 < m → All (IsDown backoff now) q → 0 < shortest backoff now m q
  unfolding shortest
  positive_shortest m [] h down = h
  positive_shortest m (s ∷ q) h ((b, e, lt), down) =
      positive_shortest (shorter backoff now m s) q (ground (arith, wait_of_down s b e)) down

  settle-Answers :
      (cancelled : Bool) (s : Str) (rest : List Str) (r : List Str × Search)
      → IsNear s
      → IsDown backoff now s
      → Scanned backoff now (2 ^ 63 - 1) [] (rest ++ s ∷ []) r
      → Answers cancelled (s ∷ rest) r.0 (settle cancelled r.1) × Perm (s ∷ rest) r.0
  settle-Answers cancelled s rest (queue, r) near down (inl (x, xs, e, f, up, p)) =
      (inl (x, xs, rw f refl, e, up), Perm.trans (rotate-perm s rest) p)
  settle-Answers true s rest (queue, r) near down (inr (e, f, all)) = (
    inr (inl (refl, rw f refl, All-rotate (IsDown backoff now) s rest all)),
    rw e (rotate-perm s rest),
  )
  settle-Answers false s rest (queue, r) near down (inr (e, f, all)) = (
    inr (
        inr (
          d,
          refl,
          rw f (ap later (mod-eq_of_lt small)),
          positive_shortest _ q (omega arith) all,
          before,
          reached,
        )),
    rw e (rotate-perm s rest),
  )
    where
      q : List Str
      q = rest ++ s ∷ []

      d : ℕ
      d = shortest backoff now (2 ^ 63 - 1) q

      small : d < 2 ^ 32
      small = omega (
        arith,
        near,
        (All-rotate (λ x. d ≤ wait_of backoff now (backoff x)) s rest
            (shortest-le-wait (2 ^ 63 - 1) d q (omega arith))).0,
      )

      before : (t : ℕ) → t < now + d → All (IsDown backoff t) (s ∷ rest)
      before t h = All-rotate (IsDown backoff t) s rest (All-shortest (2 ^ 63 - 1) q t all h)

      reached : (x : Str) × Mem x (s ∷ rest) × IsUp backoff (now + d) x
      reached = elim (shortest_reached (2 ^ 63 - 1) q) [
        | inl top ↦ absurd (omega (arith, small, top))
        | inr (x, mem, w) ↦ (x, (Perm.mem_iff (rotate-perm s rest)).1 mem, IsUp-after_wait x d w)
      ]

  pub choose-Answers :
      (cancelled : Bool) (s : Str) (rest : List Str)
      → IsNear s
      → Answers cancelled
          (s ∷ rest)
          (choose backoff (λ _. now) cancelled (s ∷ rest)).0
          (choose backoff (λ _. now) cancelled (s ∷ rest)).1
        × Perm (s ∷ rest) (choose backoff (λ _. now) cancelled (s ∷ rest)).0
  unfolding choose
  choose-Answers cancelled s rest near = elim (IsUp-or-IsDown backoff now s) [
    | inl up ↦ rw (up, choose) (inl (s, rest, refl, refl, up), Perm.refl (s ∷ rest))
    | inr down ↦
        rw (not-up_of_down backoff now s down, choose)
          (settle-Answers cancelled s rest _ near down
            (scan-Scanned backoff now 1 (2 ^ 63 - 1) [] (rest ++ s ∷ [])))
  ]

module _ (g : Glib) where
  open g use {strdown}

  -- While the clock stands, a call for a resolved network with servers whose waits fit a guint
  -- either runs the callback for a server that is up, which is then the head of the queue, or, if
  -- no server is up, drops the request (if it is cancelled) or sets a timer that ends at the first
  -- second in which some server is up. The queue is only reordered, and the backoff states of the
  -- network and all other networks are left as they are.
  pub network_server-Answers :
      (now : ℕ) (cancelled : Bool) (address : Str) (random : Bool) (networks : Networks)
      (ctx : NetworkCtx) (s : Str) (rest : List Str)
      → networks (strdown address) ≡ some ctx
      → ctx.servers ≡ s ∷ rest
      → IsNear ctx.backoff now s
      → let r = network_server g (λ _. now) cancelled address random networks in
        (queue : List Str) × Answers ctx.backoff now cancelled (s ∷ rest) queue r.1
        × Perm (s ∷ rest) queue
        × (r.0 ≡ insert Str-discrete (strdown address) (record ctx { servers = queue }) networks)
  unfolding network_server
  network_server-Answers now cancelled address random networks ctx s rest e f near =
      let (answers, perm) = choose-Answers ctx.backoff now cancelled s rest near in
      rw (e, network_server)
        (rw f ((choose ctx.backoff (λ _. now) cancelled (s ∷ rest)).0, answers, perm, refl))
