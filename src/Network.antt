-- ===== src/Network.antt =====
-- src/core/robustsession/robustsession-network.c: the table of resolved networks, the choice of a
-- server, the exponential backoff of each server, and the resolution of a network address.
-- `time (NULL)` and `rand ()` are arguments: the k-th reading of the clock in one call is `clock k`.
pub mod Served
pub mod Selection
pub mod Waiting
pub mod Backoff
pub mod Membership
pub mod Bounded
pub mod Retry
pub mod Resolving
use irssi_robustirc.Base.{
  ℕ, zero, suc, ◌+◌, ◌-◌, ◌^◌, ◌%◌, Bool, true, false, Option, none, some, List, [], ◌∷◌, ◌++◌, map,
  ltb, leb, ◌==◌, if◌then◌else◌, length, ◌||◌,
}
use irssi_robustirc.Base.Int.{ℤ, pos, negsuc, sub_ℕ, ltb_ℤ, to_word}
use irssi_robustirc.Base.Tables.{empty, insert, remove}
use irssi_robustirc.Base.Text.{Str, Str-discrete, decimal}
use irssi_robustirc.Glib.{Glib}

-- struct backoff_state
pub record BackoffState : Type 0 where
  pub exponent : ℕ
  pub next : ℕ

-- struct network_ctx; `servers` is the GQueue from its head on.
pub record NetworkCtx : Type 0 where
  pub servers : List Str
  pub backoff : Str → Option BackoffState

-- The static table `networks`, keyed by lowercase address.
abbrev pub Networks : Type 0
Networks = Str → Option NetworkCtx

-- LONG_MAX
abbrev pub long_max : ℤ
long_max = pos (2 ^ 63 - 1)

-- What a call of robustsession_network_server comes to. `crash` is the hash of a null key.
pub data Outcome : Type 0 where
  unresolved : Outcome
  call : Str → Outcome
  later : ℕ → Outcome
  dropped : Outcome
  crash : Outcome

-- robustsession_network_init
unfoldable pub network_init : Networks
network_init = empty

-- `!backoff || backoff->next <= time(NULL)`
abbrev pub is_available : Option BackoffState → ℕ → Bool
is_available none now = true
is_available (some b) now = leb b.next now

-- What the loop over the queue ends with: an available server, or the shortest wait.
pub data Search : Type 0 where
  found : Str → Search
  none_before : ℤ → Search

-- The loop of robustsession_network_server over the queue: `before` holds the servers passed so far
-- and `k` counts the readings of the clock. The queue is returned beside the result.
unfoldable pub scan :
    (Str → Option BackoffState) → (ℕ → ℕ) → ℕ → ℤ → List Str → List Str → List Str × Search
scan backoff clock k soonest before [] = (before, none_before soonest)
scan backoff clock k soonest before (s ∷ after) = elim (backoff s) [
  | none ↦ (s ∷ (before ++ after), found s)
  | some b ↦
      let wait = sub_ℕ b.next (clock (suc k)) in
      let rest =
        scan backoff clock (suc (suc k)) (if ltb_ℤ wait soonest then wait else soonest)
          (before ++ s ∷ []) after in
      if leb b.next (clock k) then (s ∷ (before ++ after), found s) else rest
]

-- After the loop: the callback runs, or a timer is set for the shortest wait, as a guint. A
-- cancellable that is cancelled already frees the timer's context at once.
abbrev pub settle : Bool → Search → Outcome
settle cancelled (found s) = call s
settle cancelled (none_before soonest) =
    if cancelled then dropped else later (to_word (2 ^ 32) soonest)

-- The queue after the call, and its outcome. g_queue_pop_nth gives NULL on an empty queue.
unfoldable pub choose : (Str → Option BackoffState) → (ℕ → ℕ) → Bool → List Str → List Str × Outcome
unfolding scan
choose backoff clock cancelled [] = ([], crash)
choose backoff clock cancelled (s ∷ rest) =
    if is_available (backoff s) (clock 0)
    then (s ∷ rest, call s)
    else let (queue, search) = scan backoff clock 1 long_max [] (rest ++ s ∷ []) in
      (queue, settle cancelled search)

-- `if (backoff->exponent < 6) backoff->exponent++;` from a state that g_new0 zeroes.
abbrev pub raise_exponent : Option BackoffState → ℕ
raise_exponent none = 1
raise_exponent (some b) = if ltb b.exponent 6 then suc b.exponent else b.exponent

-- The state that robustsession_network_failed stores, at a reading of the clock and of rand.
unfoldable pub next_backoff : ℕ → ℕ → Option BackoffState → BackoffState
next_backoff now rand old =
    let e = raise_exponent old in record { exponent = e; next = now + 2 ^ e + rand % (e + 1) }

-- "%s:%d" of the host name and the port
unfoldable pub target_text : Str × ℕ → Str
unfolding decimal
target_text (host, port) = host ++ (b':' ∷ decimal port)

-- What robustsession_network_resolve and srv_resolved come to.
pub data Resolution : Type 0 where
  -- The callback runs.
  resolved : Resolution
  -- A SRV query was sent.
  asked : Resolution
  -- The cancellable was cancelled.
  abandoned : Resolution
  -- The query failed, and robustsession_connect starts over.
  reconnects : Resolution

-- `gcharcmp (a, b) == 0` of a result
abbrev pub is_zero : ℤ → Bool
is_zero (pos zero) = true
is_zero (pos (suc n)) = false
is_zero (negsuc n) = false

-- `if (strcmp(server, "") != 0)`, then push, else free.
abbrev pub keep_nonempty : Str → List Str → List Str
keep_nonempty [] rest = rest
keep_nonempty (c ∷ s) rest = (c ∷ s) ∷ rest

module _ (g : Glib) where
  open g use {strdown, split_commas, strstrip, strncasecmp}

  -- robustsession_network_server. `random` is not read.
  unfoldable pub network_server : (ℕ → ℕ) → Bool → Str → Bool → Networks → Networks × Outcome
  unfolding choose
  network_server clock cancelled address random networks = elim (networks (strdown address)) [
    | none ↦ (networks, unresolved)
    | some ctx ↦
        let (queue, outcome) = choose ctx.backoff clock cancelled ctx.servers in
        (insert Str-discrete (strdown address) (record ctx { servers = queue }) networks, outcome)
  ]

  -- robustsession_network_failed
  unfoldable pub network_failed : ℕ → ℕ → Str → Str → Networks → Networks
  unfolding next_backoff
  network_failed now rand address target networks = elim (networks (strdown address)) [
    | none ↦ networks
    | some ctx ↦
        let backoff =
          insert Str-discrete target (next_backoff now rand (ctx.backoff target)) ctx.backoff in
        insert Str-discrete (strdown address) (record ctx { backoff = backoff }) networks
  ]

  -- robustsession_network_succeeded
  unfoldable pub network_succeeded : Str → Str → Networks → Networks
  network_succeeded address target networks = elim (networks (strdown address)) [
    | none ↦ networks
    | some ctx ↦
        insert Str-discrete (strdown address)
          (record ctx { backoff = remove Str-discrete target ctx.backoff }) networks
  ]

  -- gcharcmp (s1, s2) == 0
  unfoldable pub gcharcmp_eq : Str → Str → Bool
  gcharcmp_eq s t = if length s == length t then is_zero (strncasecmp s t (length s)) else false

  -- g_queue_find_custom (queue, t, gcharcmp) != NULL
  unfoldable pub is_known : List Str → Str → Bool
  unfolding gcharcmp_eq
  is_known [] t = false
  is_known (s ∷ queue) t = gcharcmp_eq s t || is_known queue t

  -- The loop that computes `equal`.
  unfoldable pub all_known : List Str → List Str → Bool
  unfolding is_known
  all_known queue [] = true
  all_known queue (t ∷ servers) = if is_known queue t then all_known queue servers else false

  -- robustsession_network_update_servers. A null queue has length 0.
  unfoldable pub update_servers : Str → Option (List Str) → Networks → Networks
  unfolding all_known
  update_servers address none networks = networks
  update_servers address (some servers) networks = elim (networks (strdown address)) [
    | none ↦ networks
    | some ctx ↦
        if all_known ctx.servers servers
        then networks
        else insert Str-discrete (strdown address) (record ctx { servers = servers }) networks
  ]

  -- The loop over the targets of a list: stripped, and kept if not empty.
  unfoldable pub strip_targets : List Str → List Str
  strip_targets [] = []
  strip_targets (t ∷ ts) = keep_nonempty (strstrip t) (strip_targets ts)

  -- A network that has just been resolved to the given servers, under its lowercase address.
  unfoldable pub add_network : Str → List Str → Networks → Networks
  add_network address servers networks =
      insert Str-discrete (strdown address) (record { servers = servers; backoff = empty }) networks

  -- robustsession_network_resolve. The lookup takes the address as it is written.
  unfoldable pub network_resolve : Bool → Str → Networks → Networks × Resolution
  unfolding add_network strip_targets
  network_resolve cancelled address networks = elim (networks address) [
    | some ctx ↦ (networks, resolved)
    | none ↦
        if ltb 1 (length (split_commas address))
        then (add_network address (strip_targets (split_commas address)) networks, resolved)
        else (networks, if cancelled then abandoned else asked)
  ]

  -- srv_resolved, at the answer of the resolver: host names and ports, or an error.
  unfoldable pub srv_resolved :
      Bool → Str → Option (List (Str × ℕ)) → Networks → Networks × Resolution
  unfolding add_network target_text
  srv_resolved true address answer networks = (networks, abandoned)
  srv_resolved false address none networks = (networks, reconnects)
  srv_resolved false address (some targets) networks =
      (add_network address (map target_text targets) networks, resolved)
