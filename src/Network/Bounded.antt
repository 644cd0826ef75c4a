-- ===== src/Network/Bounded.antt =====
-- What holds of the network table after any sequence of calls at times that do not go back.
use irssi_robustirc.Network.{
  all_known, add_network, BackoffState, NetworkCtx, Networks, network_init, network_server,
  network_failed, network_succeeded, update_servers, network_resolve, srv_resolved,
}
use irssi_robustirc.Base.Tables.{remove-cases, insert-cases, insert, remove}
use irssi_robustirc.Base.{
  ℕ, ◌+◌, ◌≤◌, ◌≡◌, inl, inr, Bool, true, false, Option, none, some, List, [], ◌∷◌, ltb, arith,
  length, Bool-cases, Option-cases,
}
use irssi_robustirc.Base.Text.{Str, Str-discrete}
use irssi_robustirc.Glib.{Glib}
use irssi_robustirc.Network.Backoff.{IsCapped, exponent_of, next_backoff-IsCapped}

-- The calls that change the table. The clock stands during a call, but for network_server.
pub data Call : Type 0 where
  serve : (ℕ → ℕ) → Bool → Str → Bool → Call
  fail : ℕ → Str → Str → Call
  succeed : Str → Str → Call
  update : Str → Option (List Str) → Call
  resolve : Bool → Str → Call
  answer : Bool → Str → Option (List (Str × ℕ)) → Call

-- Every state of the entry is capped.
abbrev pub IsCappedCtx : ℕ → NetworkCtx → Type 0
IsCappedCtx now ctx = (t : Str) (b : BackoffState) → ctx.backoff t ≡ some b → IsCapped now b

capped_exponent :
    (now : ℕ) (ctx : NetworkCtx) (t : Str) → IsCappedCtx now ctx → exponent_of (ctx.backoff t) ≤ 6
capped_exponent now ctx t h = elim (Option-cases (ctx.backoff t)) [
  | inl e ↦ rw e (omega arith)
  | inr (b, e) ↦ rw e (omega (arith, h t b e))
]

empty-IsCappedCtx :
    (now : ℕ) (servers : List Str)
    → IsCappedCtx now (record { servers = servers; backoff = λ _. none })
empty-IsCappedCtx now servers t b e = cc

insert-IsCappedCtx :
    (now : ℕ) (ctx : NetworkCtx) (t : Str) (b : BackoffState)
    → IsCappedCtx now ctx
    → IsCapped now b
    → IsCappedCtx now (record ctx { backoff = insert Str-discrete t b ctx.backoff })
insert-IsCappedCtx now ctx t b h new j c e = elim (insert-cases Str-discrete t b ctx.backoff j e) [
  | inl (_, same) ↦ rw (← same) new
  | inr old ↦ h j c old
]

remove-IsCappedCtx :
    (now : ℕ) (ctx : NetworkCtx) (t : Str)
    → IsCappedCtx now ctx
    → IsCappedCtx now (record ctx { backoff = remove Str-discrete t ctx.backoff })
remove-IsCappedCtx now ctx t h j c e = h j c (remove-cases Str-discrete t ctx.backoff j e)

module _ (g : Glib) where
  open g use {strdown, strdown-strdown, split_commas}

  unfoldable pub step : ℕ → Call → Networks → Networks
  step now (serve clock cancelled address random) networks =
      (network_server g clock cancelled address random networks).0
  step now (fail rand address target) networks = network_failed g now rand address target networks
  step now (succeed address target) networks = network_succeeded g address target networks
  step now (update address servers) networks = update_servers g address servers networks
  step now (resolve cancelled address) networks = (network_resolve g cancelled address networks).0
  step now (answer cancelled address targets) networks =
      (srv_resolved g cancelled address targets networks).0

  -- Every key is lowercase, and every state is capped.
  abbrev pub IsSound : ℕ → Networks → Type 0
  IsSound now networks =
      (key : Str) (ctx : NetworkCtx)
      → networks key ≡ some ctx
      → (strdown key ≡ key) × IsCappedCtx now ctx

  insert-IsSound :
      (now : ℕ) (address : Str) (ctx : NetworkCtx) (networks : Networks)
      → IsSound now networks
      → IsCappedCtx now ctx
      → IsSound now (insert Str-discrete (strdown address) ctx networks)
  insert-IsSound now address ctx networks h new j c e =
      elim (insert-cases Str-discrete (strdown address) ctx networks j e) [
        | inl (here, same) ↦ (rw (← here) (strdown-strdown address), rw (← same) new)
        | inr old ↦ h j c old
      ]

  network_server-IsSound :
      (now : ℕ) (clock : ℕ → ℕ) (cancelled : Bool) (address : Str) (random : Bool)
      (networks : Networks)
      → IsSound now networks
      → IsSound now (network_server g clock cancelled address random networks).0
  unfolding network_server
  network_server-IsSound now clock cancelled address random networks h =
      elim (Option-cases (networks (strdown address))) [
        | inl e ↦ rw (e, network_server) h
        | inr (ctx, e) ↦
            rw (e, network_server) (insert-IsSound now address _ networks h (h _ ctx e).1)
      ]

  network_failed-IsSound :
      (now rand : ℕ) (address target : Str) (networks : Networks)
      → IsSound now networks
      → IsSound now (network_failed g now rand address target networks)
  unfolding network_failed
  network_failed-IsSound now rand address target networks h =
      elim (Option-cases (networks (strdown address))) [
        | inl e ↦ rw (e, network_failed) h
        | inr (ctx, e) ↦
            let old = (h _ ctx e).1 in
            rw (e, network_failed)
              (insert-IsSound now address _ networks h (
                insert-IsCappedCtx now ctx target _ old (
                  next_backoff-IsCapped now rand (ctx.backoff target)
                    (capped_exponent now ctx target old))))
      ]

  network_succeeded-IsSound :
      (now : ℕ) (address target : Str) (networks : Networks)
      → IsSound now networks
      → IsSound now (network_succeeded g address target networks)
  unfolding network_succeeded
  network_succeeded-IsSound now address target networks h =
      elim (Option-cases (networks (strdown address))) [
        | inl e ↦ rw (e, network_succeeded) h
        | inr (ctx, e) ↦
            rw (e, network_succeeded)
              (insert-IsSound now address _ networks h
                (remove-IsCappedCtx now ctx target (h _ ctx e).1))
      ]

  update_servers-IsSound :
      (now : ℕ) (address : Str) (servers : Option (List Str)) (networks : Networks)
      → IsSound now networks
      → IsSound now (update_servers g address servers networks)
  unfolding update_servers
  update_servers-IsSound now address none networks h = h
  update_servers-IsSound now address (some servers) networks h =
      elim (Option-cases (networks (strdown address))) [
        | inl e ↦ rw (e, update_servers) h
        | inr (ctx, e) ↦ elim (Bool-cases (all_known g ctx.servers servers)) [
          | inl kept ↦ rw (e, update_servers) (rw kept h)
          | inr new ↦
              rw (e, update_servers)
                (rw new (insert-IsSound now address _ networks h (h _ ctx e).1))
        ]
      ]

  add_network-IsSound :
      (now : ℕ) (address : Str) (servers : List Str) (networks : Networks)
      → IsSound now networks
      → IsSound now (add_network g address servers networks)
  unfolding add_network
  add_network-IsSound now address servers networks h =
      insert-IsSound now address _ networks h (empty-IsCappedCtx now servers)

  network_resolve-IsSound :
      (now : ℕ) (cancelled : Bool) (address : Str) (networks : Networks)
      → IsSound now networks
      → IsSound now (network_resolve g cancelled address networks).0
  unfolding network_resolve
  network_resolve-IsSound now cancelled address networks h =
      elim (Option-cases (networks address)) [
        | inr (ctx, e) ↦ rw (e, network_resolve) h
        | inl e ↦ elim (Bool-cases (ltb 1 (length (split_commas address)))) [
          | inl commas ↦
              rw (e, network_resolve) (rw commas (add_network-IsSound now address _ networks h))
          | inr one ↦ rw (e, network_resolve) (rw one h)
        ]
      ]

  srv_resolved-IsSound :
      (now : ℕ) (cancelled : Bool) (address : Str) (targets : Option (List (Str × ℕ)))
      (networks : Networks)
      → IsSound now networks
      → IsSound now (srv_resolved g cancelled address targets networks).0
  unfolding srv_resolved
  srv_resolved-IsSound now true address targets networks h = h
  srv_resolved-IsSound now false address none networks h = h
  srv_resolved-IsSound now false address (some targets) networks h =
      add_network-IsSound now address _ networks h

  step-IsSound :
      (now : ℕ) (call : Call) (networks : Networks)
      → IsSound now networks
      → IsSound now (step now call networks)
  unfolding step
  step-IsSound now (serve clock cancelled address random) networks h =
      network_server-IsSound now clock cancelled address random networks h
  step-IsSound now (fail rand address target) networks h =
      network_failed-IsSound now rand address target networks h
  step-IsSound now (succeed address target) networks h =
      network_succeeded-IsSound now address target networks h
  step-IsSound now (update address servers) networks h =
      update_servers-IsSound now address servers networks h
  step-IsSound now (resolve cancelled address) networks h =
      network_resolve-IsSound now cancelled address networks h
  step-IsSound now (answer cancelled address targets) networks h =
      srv_resolved-IsSound now cancelled address targets networks h

  later-IsSound :
      (now pause : ℕ) (networks : Networks) → IsSound now networks → IsSound (now + pause) networks
  later-IsSound now pause networks h key ctx e = (
    (h key ctx e).0,
    λ t b f.
        let c = (h key ctx e).1 t b f in
        record { raised = c.raised; capped = c.capped; near = omega (arith, c.near) },
  )

  -- A run of calls, each some seconds after the one before.
  unfoldable pub run : ℕ → List (ℕ × Call) → Networks → Networks
  run now [] networks = networks
  run now ((pause, call) ∷ calls) networks =
      run (now + pause) calls (step (now + pause) call networks)

  abbrev pub end_of : ℕ → List (ℕ × Call) → ℕ
  end_of now [] = now
  end_of now ((pause, call) ∷ calls) = end_of (now + pause) calls

  run-IsSound :
      (now : ℕ) (calls : List (ℕ × Call)) (networks : Networks)
      → IsSound now networks
      → IsSound (end_of now calls) (run now calls networks)
  unfolding run
  run-IsSound now [] networks h = h
  run-IsSound now ((pause, call) ∷ calls) networks h =
      run-IsSound (now + pause) calls _
        (step-IsSound (now + pause) call networks (later-IsSound now pause networks h))

  -- After any run of calls from the start every network is stored under a lowercase key, and every
  -- backoff state has an exponent between 1 and 6 and ends within 70 seconds.
  pub reachable-IsSound :
      (start : ℕ) (calls : List (ℕ × Call))
      → IsSound (end_of start calls) (run start calls network_init)
  unfolding network_init
  reachable-IsSound start calls = run-IsSound start calls network_init (λ key ctx e. cc)
