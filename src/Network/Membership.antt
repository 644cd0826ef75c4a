-- ===== src/Network/Membership.antt =====
-- robustsession_network_update_servers: the servers that a ping announces.
use irssi_robustirc.Base.{
  All-imp, zero, suc, ◌≡◌, ◌↔◌, refl, sym, ap, ◌∙◌, ◌⊎◌, inl, inr, Bool, true, false, ◌||◌, some,
  List, [], ◌∷◌, map, ◌==◌, ==_iff, if◌then◌else◌, arith, length, All, Bool-cases,
}
use mathlib.Core.List.{Mem, mem-cons, mem-cons_self, mem-cons_of_mem, not-mem-nil}
use mathlib.Core.Logic.Or
use mathlib.Core.Bool.{false≢true}
use irssi_robustirc.Base.Int.{ℤ, pos, negsuc}
use irssi_robustirc.Base.Text.{Str, Str-discrete}
use irssi_robustirc.Base.Tables.{insert, insert_self}
use irssi_robustirc.Glib.{Glib}
use irssi_robustirc.Network.{
  NetworkCtx, Networks, is_zero, gcharcmp_eq, is_known, all_known, update_servers,
}

is_zero_iff : (x : ℤ) → (is_zero x ≡ true) ↔ (x ≡ pos 0)
is_zero_iff (pos zero) = (λ h. refl, λ h. refl)
is_zero_iff (pos (suc n)) = (λ h. cc, λ h. ground arith)
is_zero_iff (negsuc n) = (λ h. cc, λ h. cc)

test_prop : (b : Bool) → IsProp (b ≡ true)
test_prop b = hlevel

or_true : (b : Bool) → (b || true) ≡ true
or_true b = ground arith

module _ (g : Glib) where
  open g use {strdown, strncasecmp, length-strdown, strncasecmp_iff}

  -- The list holds the name, in some case.
  abbrev pub Lists : List Str → Str → Type 0
  Lists queue t = Mem (strdown t) (map strdown queue)

  same_of_gcharcmp : (s t : Str) → gcharcmp_eq g s t ≡ true → strdown s ≡ strdown t
  unfolding gcharcmp_eq
  same_of_gcharcmp s t h = elim (Bool-cases (length s == length t)) [
    | inl e ↦
        let len : length s ≡ length t = (==_iff _ _).0 e in
        let zero : is_zero (strncasecmp s t (length s)) ≡ true = rw e at h in
        (strncasecmp_iff s t len).0 ((is_zero_iff _).0 zero)
    | inr e ↦ let bad : false ≡ true = rw e at h in cc
  ]

  gcharcmp_of_same : (s t : Str) → strdown s ≡ strdown t → gcharcmp_eq g s t ≡ true
  unfolding gcharcmp_eq
  gcharcmp_of_same s t h =
      let len : length s ≡ length t = sym (length-strdown s) ∙ ap length h ∙ length-strdown t in
      rw ((==_iff _ _).1 len) ((is_zero_iff _).1 ((strncasecmp_iff s t len).1 h))

  is_known-Lists : (queue : List Str) (t : Str) → (is_known g queue t ≡ true) ↔ Lists queue t
  unfolding is_known
  is_known-Lists [] t = (λ h. cc, λ m. absurd (not-mem-nil m))
  is_known-Lists (s ∷ queue) t =
      (known (is_known-Lists queue t).0, listed (is_known-Lists queue t).1)
    where
      known :
          (is_known g queue t ≡ true → Lists queue t)
          → (gcharcmp_eq g s t || is_known g queue t) ≡ true
          → Lists (s ∷ queue) t
      known ih h = elim (Bool-cases (gcharcmp_eq g s t)) [
        | inl e ↦ rw (same_of_gcharcmp s t e) mem-cons_self
        | inr e ↦
            let later : is_known g queue t ≡ true = rw e at h in
            mem-cons_of_mem (strdown s) (ih later)
      ]

      listed :
          (Lists queue t → is_known g queue t ≡ true)
          → Lists (s ∷ queue) t
          → (gcharcmp_eq g s t || is_known g queue t) ≡ true
      listed ih m =
          Or.elim (test_prop _) (mem-cons.0 m) (λ e. rw (gcharcmp_of_same s t (sym e)) refl)
            (λ later. rw (ih later) (or_true _))

  all_known-Lists :
      (queue servers : List Str) → (all_known g queue servers ≡ true) ↔ All (Lists queue) servers
  unfolding all_known
  all_known-Lists queue [] = (λ h. tt, λ h. refl)
  all_known-Lists queue (t ∷ servers) =
      let (sound, complete) = all_known-Lists queue servers in
      let (known, listed) = is_known-Lists queue t in
      (λ h. split h known sound, λ h. rw (listed h.0) (complete h.1))
    where
      split :
          (if is_known g queue t then all_known g queue servers else false) ≡ true
          → (is_known g queue t ≡ true → Lists queue t)
          → (all_known g queue servers ≡ true → All (Lists queue) servers)
          → Lists queue t × All (Lists queue) servers
      split h known sound = elim (Bool-cases (is_known g queue t)) [
        | inl e ↦ (known e, sound (rw e at h))
        | inr e ↦ let bad : false ≡ true = rw e at h in cc
      ]

  All-Lists_self : (queue : List Str) → All (Lists queue) queue
  All-Lists_self [] = tt
  All-Lists_self (s ∷ queue) =
      (mem-cons_self, All-imp (λ t m. mem-cons_of_mem (strdown s) m) queue (All-Lists_self queue))

  update_kept :
      (address : Str) (servers : List Str) (networks : Networks) (ctx : NetworkCtx)
      → networks (strdown address) ≡ some ctx
      → all_known g ctx.servers servers ≡ true
      → update_servers g address (some servers) networks ≡ networks
  unfolding update_servers
  update_kept address servers networks ctx e h = rw (e, update_servers) (rw h refl)

  update_replaced :
      (address : Str) (servers : List Str) (networks : Networks) (ctx : NetworkCtx)
      → networks (strdown address) ≡ some ctx
      → all_known g ctx.servers servers ≡ false
      → update_servers g address (some servers) networks
        ≡ insert Str-discrete (strdown address) (record ctx { servers = servers }) networks
  unfolding update_servers
  update_replaced address servers networks ctx e h = rw (e, update_servers) (rw h refl)

  -- An announcement of servers for a resolved network changes the table exactly if some announced
  -- server is not in the queue yet, in whatever case; then the announced list is the new queue.
  -- The backoff states stay in both cases, and afterwards each announced server is in the queue.
  pub update_servers_effect :
      (address : Str) (servers : List Str) (networks : Networks) (ctx : NetworkCtx)
      → networks (strdown address) ≡ some ctx
      → (queue : List Str) × (update_servers g address (some servers) networks (strdown address)
          ≡ some (record ctx { servers = queue }))
        × ((All (Lists ctx.servers) servers
              × (queue ≡ ctx.servers)
              × (update_servers g address (some servers) networks ≡ networks))
            ⊎ ((¬ All (Lists ctx.servers) servers) × (queue ≡ servers)))
        × All (Lists queue) servers
  update_servers_effect address servers networks ctx e =
      elim (Bool-cases (all_known g ctx.servers servers)) [
        | inl h ↦
            let kept = update_kept address servers networks ctx e h in
            let all : All (Lists ctx.servers) servers = (all_known-Lists ctx.servers servers).0 h in
            (ctx.servers, rw kept e, inl (all, refl, kept), all)
        | inr h ↦
            let new : NetworkCtx = record ctx { servers = servers } in
            let key : Str = strdown address in
            (
              servers,
              rw (update_replaced address servers networks ctx e h)
                  (insert_self Str-discrete key new networks),
              inr (λ all. false≢true (sym h ∙ (all_known-Lists ctx.servers servers).1 all), refl),
              All-Lists_self servers,
            )
      ]
