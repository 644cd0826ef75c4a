-- ===== src/Pending.antt =====
-- src/core/robustsession/robustsession-network.c: struct query and struct server_retry_ctx on the heap,
-- and who refers to them: the resolver, the timers of GLib, and the signal "cancelled" of a session's
-- GCancellable. What the calls compute is in Network and Completion.
pub mod Held
pub mod Events
pub mod Cancelled
pub mod Reach
use irssi_robustirc.Base.{
  ℕ, suc, Bool, true, false, Option, none, some, List, [], ◌∷◌, ◌++◌, if◌then◌else◌, ℕ_discrete,
}
use irssi_robustirc.Base.Counts.{list_remove}
use irssi_robustirc.Base.Tables.{empty, insert, remove}
use irssi_robustirc.Base.Text.{Str}
use irssi_robustirc.Session.{Callback}

-- struct query, less what it points to: the address of its server
pub record Query : Type 0 where
  pub query_address : Str

-- struct server_retry_ctx
pub record RetryCtx : Type 0 where
  pub retry_address : Str
  pub retry_callback : Callback
  pub timeout_id : ℕ

-- A pointer is a number. The handlers of the signal are given by the pointers that they are called
-- with, for each callback in the order in which they were connected; `lookups` are the pointers that
-- the resolver will call srv_resolved with, and `sources` the ones of the running timers, by tag.
pub record Pending : Type 0 where
  pub queries : ℕ → Option Query
  pub retries : ℕ → Option RetryCtx
  pub next_block : ℕ
  pub query_handlers : List ℕ
  pub retry_handlers : List ℕ
  pub lookups : List ℕ
  pub sources : ℕ → Option ℕ
  pub next_tag : ℕ
  pub cancelled : Bool
  -- Freed memory was read or freed.
  pub crashed : Bool

abbrev pub nothing_pending : Pending
nothing_pending = record {
  queries = empty;
  retries = empty;
  next_block = 0;
  query_handlers = [];
  retry_handlers = [];
  lookups = [];
  sources = empty;
  next_tag = 1;
  cancelled = false;
  crashed = false;
}

abbrev pub crash_pending : Pending → Pending
crash_pending p = record p { crashed = true }

-- g_free of a query
abbrev pub free_query : ℕ → Pending → Pending
free_query b p = record p { queries = remove ℕ_discrete b p.queries }

-- resolve_cancelled
unfoldable pub resolve_cancelled : ℕ → Pending → Pending
resolve_cancelled b p = elim (p.queries b) [ none ↦ crash_pending p | some q ↦ free_query b p ]

-- g_source_remove of the timer, and g_free of the context
abbrev pub free_retry : ℕ → ℕ → Pending → Pending
free_retry tag b p = record p {
  retries = remove ℕ_discrete b p.retries;
  sources = remove ℕ_discrete tag p.sources;
}

-- retry_cancelled
unfoldable pub retry_cancelled : ℕ → Pending → Pending
retry_cancelled b p = elim (p.retries b) [
  | none ↦ crash_pending p
  | some c ↦ free_retry c.timeout_id b p
]

-- The end of robustsession_network_resolve, for a network that is not in the table.
-- g_cancellable_connect calls the callback at once if the session is cancelled already.
unfoldable pub start_lookup : Str → Pending → Pending
unfolding resolve_cancelled
start_lookup address p =
    let b = p.next_block in
    let made = record p {
      next_block = suc b;
      queries = insert ℕ_discrete b (record { query_address = address }) p.queries;
    } in
    if p.cancelled
    then resolve_cancelled b made
    else record made { query_handlers = p.query_handlers ++ b ∷ []; lookups = p.lookups ++ b ∷ [] }

-- The end of robustsession_network_server, for a call that waits
unfoldable pub start_retry : Str → Callback → Pending → Pending
unfolding retry_cancelled
start_retry address cb p =
    let b = p.next_block in
    let tag = p.next_tag in
    let ctx : RetryCtx = record {
      retry_address = address;
      retry_callback = cb;
      timeout_id = tag;
    } in
    let made = record p {
      next_block = suc b;
      next_tag = suc tag;
      retries = insert ℕ_discrete b ctx p.retries;
      sources = insert ℕ_discrete tag b p.sources;
    } in
    if p.cancelled
    then retry_cancelled b made
    else record made { retry_handlers = p.retry_handlers ++ b ∷ [] }

-- A callback of the code, which may make a call that waits.
abbrev pub call_back : Option (Str × Callback) → Pending → Pending
call_back none p = p
call_back (some (address, cb)) p = start_retry address cb p

-- srv_resolved; `failed` if the lookup failed, and what the callback leaves waiting
unfoldable pub srv_resolved : ℕ → Bool → Option (Str × Callback) → Pending → Pending
unfolding start_retry
srv_resolved b failed waits p =
    let done = record p { lookups = list_remove b p.lookups } in
    let called = call_back waits done in
    elim (p.queries b) [
      | none ↦ crash_pending done
      | some q ↦
          if p.cancelled
          then done
          else if failed
          then done
          else free_query b (record called { query_handlers = list_remove b called.query_handlers })
    ]

-- robustsession_network_server_retry_cb, as the timer with the tag calls it; its source ends.
unfoldable pub network_server_retry_cb : ℕ → Option (Str × Callback) → Pending → Pending
unfolding start_retry
network_server_retry_cb tag waits p = elim (p.sources tag) [
  | none ↦ p
  | some b ↦ elim (p.retries b) [
    | none ↦ crash_pending p
    | some c ↦
        let called = call_back waits p in
        free_retry tag b (record called { retry_handlers = list_remove b called.retry_handlers })
  ]
]

unfoldable pub resolves_cancelled : List ℕ → Pending → Pending
unfolding resolve_cancelled
resolves_cancelled [] p = p
resolves_cancelled (b ∷ bs) p = resolves_cancelled bs (resolve_cancelled b p)

unfoldable pub retries_cancelled : List ℕ → Pending → Pending
unfolding retry_cancelled
retries_cancelled [] p = p
retries_cancelled (b ∷ bs) p = retries_cancelled bs (retry_cancelled b p)

-- g_cancellable_cancel: the handlers of the signal, once
unfoldable pub cancel : Pending → Pending
unfolding resolves_cancelled retries_cancelled
cancel p =
    if p.cancelled
    then p
    else retries_cancelled p.retry_handlers
        (resolves_cancelled p.query_handlers (record p { cancelled = true }))
