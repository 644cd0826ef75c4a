-- ===== src/Network/Resolving.antt =====
-- robustsession_network_resolve and srv_resolved, and what the first request after them finds.
use irssi_robustirc.Base.{
  if_neg, if_pos, ite, ℕ, ◌≡◌, ◌≢◌, refl, inl, inr, Bool, false, none, some, List, [], ◌∷◌, map,
  ltb, if◌then◌else◌, length, Option-cases, Bool-cases, ◌++◌, ap,
}
use irssi_robustirc.Base.Text.{Str, Str-discrete, decimal}
use irssi_robustirc.Base.Tables.{empty, insert, insert_self, insert_ne}
use irssi_robustirc.Glib.{Glib}
use irssi_robustirc.Network.{
  NetworkCtx, Networks, Outcome, call, crash, network_server, add_network, strip_targets,
  keep_nonempty, target_text, network_resolve, srv_resolved, resolved, asked, abandoned, choose,
}
use irssi_robustirc.Network.Bounded.{IsSound}

module _ (g : Glib) where
  open g use {strdown, split_commas, strstrip}

  abbrev fresh : List Str → NetworkCtx
  fresh servers = record { servers = servers; backoff = empty }

  lookup-add_network :
      (address : Str) (servers : List Str) (networks : Networks)
      → add_network g address servers networks (strdown address) ≡ some (fresh servers)
  unfolding add_network
  lookup-add_network address servers networks =
      insert_self Str-discrete (strdown address) (fresh servers) networks

  -- What the first request to a network with these servers comes to.
  abbrev pub first_outcome : List Str → Outcome
  first_outcome [] = crash
  first_outcome (s ∷ rest) = call s

  choose_fresh :
      (clock : ℕ → ℕ) (cancelled : Bool) (servers : List Str)
      → (choose empty clock cancelled servers).1 ≡ first_outcome servers
  unfolding choose
  choose_fresh clock cancelled [] = refl
  choose_fresh clock cancelled (s ∷ rest) = refl

  server-add_network :
      (clock : ℕ → ℕ) (cancelled : Bool) (address other : Str) (random : Bool) (servers : List Str)
      (networks : Networks)
      → strdown other ≡ strdown address
      → (network_server g clock cancelled other random (add_network g address servers networks)).1
        ≡ first_outcome servers
  unfolding network_server
  server-add_network clock cancelled address other random servers networks same =
      rw (same, lookup-add_network address servers networks, network_server)
        (choose_fresh clock cancelled servers)

  -- The targets of a list: each one stripped, without those that are then empty.
  abbrev pub nonempty : List Str → List Str
  nonempty [] = []
  nonempty ([] ∷ ts) = nonempty ts
  nonempty ((c ∷ s) ∷ ts) = (c ∷ s) ∷ nonempty ts

  strip_targets-nonempty : (ts : List Str) → strip_targets g ts ≡ nonempty (map strstrip ts)
  unfolding strip_targets
  strip_targets-nonempty [] = refl
  strip_targets-nonempty (t ∷ ts) = keep (strstrip t) (strip_targets-nonempty ts)
    where
      keep :
          (s : Str)
          → strip_targets g ts ≡ nonempty (map strstrip ts)
          → keep_nonempty s (strip_targets g ts) ≡ nonempty (s ∷ map strstrip ts)
      keep [] h = h
      keep (c ∷ s) h = ap (λ l. (c ∷ s) ∷ l) h

  -- Whether the address names its servers, instead of a domain
  abbrev pub is_list : Str → Bool
  is_list address = ltb 1 (length (split_commas address))

  -- The servers of a network, by its address and the answer of the resolver
  abbrev pub servers_of : Str → List (Str × ℕ) → List Str
  servers_of address answer =
      if is_list address
      then nonempty (map strstrip (split_commas address))
      else map (λ t. t.0 ++ (b':' ∷ decimal t.1)) answer

  -- The table after robustsession_network_resolve, and after srv_resolved if the resolver was asked
  abbrev pub table_after : Str → List (Str × ℕ) → Networks → Networks
  table_after address answer networks =
      if is_list address
      then (network_resolve g false address networks).0
      else (srv_resolved g false address (some answer)
          (network_resolve g false address networks).0).0

  resolved_table :
      (address : Str) (answer : List (Str × ℕ)) (networks : Networks)
      → networks address ≡ none
      → table_after address answer networks
        ≡ add_network g address (servers_of address answer) networks
  unfolding network_resolve srv_resolved target_text
  resolved_table address answer networks new = elim (Bool-cases (is_list address)) [
    | inl list ↦
        rw (new, network_resolve)
          (rw list (
            ap (λ l. add_network g address l networks)
              (strip_targets-nonempty (split_commas address))))
    | inr domain ↦ rw (new, network_resolve) (rw domain refl)
  ]

  resolved_outcome :
      (address : Str) (networks : Networks)
      → networks address ≡ none
      → (network_resolve g false address networks).1 ≡ (if is_list address then resolved else asked)
  unfolding network_resolve
  resolved_outcome address networks new = elim (Bool-cases (is_list address)) [
    | inl list ↦ rw (new, network_resolve) (rw list refl)
    | inr domain ↦ rw (new, network_resolve) (rw domain refl)
  ]

  -- A network that is not in the table under its address is resolved at once if the address is a comma
  -- separated list, and else the resolver is asked. Once that is answered, the network is stored under
  -- its lowercase address with no backoff state and with these servers: the targets of the list,
  -- stripped, in their order, less the empty ones; or the answers as "host:port", in their order. All
  -- other networks stay. The first request to the network, with its address in any case, runs at once
  -- on the first server; where there is none, it dereferences a null server.
  pub resolve-server :
      (clock : ℕ → ℕ) (cancelled : Bool) (address other : Str) (random : Bool)
      (answer : List (Str × ℕ)) (networks : Networks)
      → strdown other ≡ strdown address
      → networks address ≡ none
      → let after = table_after address answer networks in
        ((network_resolve g false address networks).1
          ≡ (if is_list address then resolved else asked))
        × (after (strdown address)
            ≡ some (record { servers = servers_of address answer; backoff = empty }))
        × ((key : Str) → strdown address ≢ key → after key ≡ networks key)
        × ((network_server g clock cancelled other random after).1
            ≡ first_outcome (servers_of address answer))
  unfolding network_resolve add_network
  resolve-server clock cancelled address other random answer networks same new =
      let stored = resolved_table address answer networks new in
      (
        resolved_outcome address networks new,
        rw stored (lookup-add_network address (servers_of address answer) networks),
        λ key away.
            rw (stored, add_network) (insert_ne Str-discrete (strdown address) _ networks key away),
        rw stored (
            server-add_network clock cancelled address other random (servers_of address answer)
              networks same),
      )

  -- Resolving a network again, which a sound table holds: under its lowercase address nothing
  -- changes and the callback runs. Under an address with a capital the entry is not found, so a
  -- comma separated list replaces it by one with no backoff state, and any other address is asked
  -- for again.
  pub resolve_again :
      (now : ℕ) (cancelled : Bool) (address : Str) (networks : Networks) (ctx : NetworkCtx)
      → IsSound g now networks
      → networks (strdown address) ≡ some ctx
      → network_resolve g cancelled address networks
        ≡ ite
            (Str-discrete (strdown address) address)
            (networks, resolved)
            (if ltb 1 (length (split_commas address))
              then (
                insert Str-discrete
                    (strdown address)
                    (record { servers = strip_targets g (split_commas address); backoff = empty })
                    networks,
                resolved,
              )
              else (networks, if cancelled then abandoned else asked))
  unfolding network_resolve add_network
  resolve_again now cancelled address networks ctx sound known =
      elim (Str-discrete (strdown address) address) [
        | yes lower ↦
            let found : networks address ≡ some ctx = rw lower at known in
            rw (if_pos _ lower) (rw (found, network_resolve) refl)
        | no mixed ↦ elim (Option-cases (networks address)) [
          | inl e ↦ rw (if_neg _ mixed) (rw (e, network_resolve) refl)
          | inr (c, e) ↦ absurd (mixed (sound address c e).0)
        ]
      ]
