-- ===== src/Network/Served.antt =====
-- The server that robustsession_network_server gives is one of the network.
use irssi_robustirc.Base.{
  true, ◌≡◌, refl, ◌++◌, ◌∷◌, [], List, Option, some, Bool, false, ℕ, suc, rotate-perm, subst, leb,
  inl, inr, Option-cases, Bool-cases, if◌then◌else◌,
}
use mathlib.Core.List.{Mem, mem-cons_self, mem-cons_of_mem}
use mathlib.Core.List.Perm
use irssi_robustirc.Base.Int.{ℤ, sub_ℕ, ltb_ℤ}
use irssi_robustirc.Base.Text.{Str}
use irssi_robustirc.Glib.{Glib}
use irssi_robustirc.Network.{
  BackoffState, NetworkCtx, Networks, call, Search, found, none_before, scan, settle, choose,
  is_available, long_max, network_server,
}

-- The loop gives a server that it has before it.
scan-Mem :
    (backoff : Str → Option BackoffState) (clock : ℕ → ℕ) (k : ℕ) (soonest : ℤ)
    (before after : List Str) (t : Str)
    → (scan backoff clock k soonest before after).1 ≡ found t
    → Mem t after
unfolding scan
scan-Mem backoff clock k soonest before [] t e = cc
scan-Mem backoff clock k soonest before (s ∷ after) t e = elim (Option-cases (backoff s)) [
  | inl fresh ↦
      let e' = (rw (fresh, scan) at e) in
      let same : s ≡ t = cc in subst (λ x. Mem x (s ∷ after)) same mem-cons_self
  | inr (b, state) ↦ elim (Bool-cases (leb b.next (clock k))) [
    | inl up ↦
        let e' = (rw (state, scan) at e) in
        let e'' = (rw up at e') in
        let same : s ≡ t = cc in subst (λ x. Mem x (s ∷ after)) same mem-cons_self
    | inr down ↦
        let e' = (rw (state, scan) at e) in
        let e'' = (rw down at e') in
        mem-cons_of_mem s (
          scan-Mem backoff clock (suc (suc k))
            (let wait = sub_ℕ b.next (clock (suc k)) in
              if ltb_ℤ wait soonest then wait else soonest)
            (before ++ s ∷ []) after t e'')
  ]
]

settled-found : (x : Search) (t : Str) → settle false x ≡ call t → x ≡ found t
settled-found (found s) t e = cc
settled-found (none_before soonest) t e = cc

-- The callback runs for a server of the network.
pub network_server-Mem :
    (g : Glib) (clock : ℕ → ℕ) (address : Str) (random : Bool) (networks : Networks)
    (ctx : NetworkCtx) (s : Str) (rest : List Str) (t : Str)
    → networks (g.strdown address) ≡ some ctx
    → ctx.servers ≡ s ∷ rest
    → (network_server g clock false address random networks).1 ≡ call t
    → Mem t (s ∷ rest)
unfolding network_server choose
network_server-Mem g clock address random networks ctx s rest t e f made =
    let chosen : (choose ctx.backoff clock false (s ∷ rest)).1 ≡ call t =
      rw f at (rw (e, network_server) at made) in
    elim (Bool-cases (is_available (ctx.backoff s) (clock 0))) [
      | inl up ↦
          let here = (rw up at chosen) in
          let same : s ≡ t = cc in subst (λ x. Mem x (s ∷ rest)) same mem-cons_self
      | inr down ↦
          let searched = (rw down at chosen) in
          (Perm.mem_iff (rotate-perm s rest)).1 (
            scan-Mem ctx.backoff clock 1 long_max [] (rest ++ s ∷ []) t
              (settled-found _ t searched))
    ]

-- The head of the queue, if it is up
pub network_server-head :
    (g : Glib) (clock : ℕ → ℕ) (address : Str) (random : Bool) (networks : Networks)
    (ctx : NetworkCtx) (s : Str) (rest : List Str)
    → networks (g.strdown address) ≡ some ctx
    → ctx.servers ≡ s ∷ rest
    → is_available (ctx.backoff s) (clock 0) ≡ true
    → (network_server g clock false address random networks).1 ≡ call s
unfolding network_server choose
network_server-head g clock address random networks ctx s rest e f up =
    rw (e, network_server) (rw (f, up) refl)
