-- ===== src/Pending/Events.antt =====
-- Before the cancellation, every event keeps the blocks and their handlers together.
use irssi_robustirc.Base.{
  ℕ, ◌<◌, ◌≡◌, refl, sym, ap, subst, ◌∙◌, Bool, Option, none, some, ℕ_discrete, arith, inl, inr,
  Option-cases, Bool-cases,
}
use irssi_robustirc.Base.Counts.{list_remove, count, count-list_remove}
use irssi_robustirc.Base.Tables.{insert, insert_self, insert_ne, insert-cases}
use irssi_robustirc.Base.Text.{Str}
use irssi_robustirc.Session.{Callback}
use irssi_robustirc.Pending.{
  RetryCtx, Pending, free_query, free_retry, start_lookup, start_retry, call_back, srv_resolved,
  network_server_retry_cb,
}
use irssi_robustirc.Pending.Held.{
  tally, add-Counted, drop-Counted, Listed, add-Listed, drop-Listed, IsHeld, drop-Timed,
  fresh-insert, remove-none,
}

pub start_lookup-IsHeld : (address : Str) (p : Pending) → IsHeld p → IsHeld (start_lookup address p)
unfolding start_lookup
start_lookup-IsHeld address p h = rw h.running (record {
  running = refl;
  sound = h.sound;
  queries_held =
      add-Counted p.queries p.query_handlers p.next_block _ (h.new_query p.next_block (omega arith))
        h.queries_held;
  retries_held = h.retries_held;
  timed = h.timed;
  new_query = fresh-insert p.queries p.next_block _ h.new_query;
  new_retry = λ b later. h.new_retry b (omega (arith, later));
  looked =
      add-Listed p.queries p.lookups p.next_block _ (h.new_query p.next_block (omega arith))
        h.looked;
})

-- What the callback of a lookup or a timer leaves alone
abbrev pub Keeps : Pending → Pending → Type 0
Keeps p p' =
    (p'.lookups ≡ p.lookups)
    × (p'.queries ≡ p.queries)
    × (p'.query_handlers ≡ p.query_handlers)
    × ((b : ℕ) (c : RetryCtx) → p.retries b ≡ some c → p'.retries b ≡ some c)

pub start_retry-IsHeld :
    (address : Str) (cb : Callback) (p : Pending)
    → IsHeld p
    → IsHeld (start_retry address cb p) × Keeps p (start_retry address cb p)
unfolding start_retry
start_retry-IsHeld address cb p h =
    let b = p.next_block in
    let fresh = h.new_retry b (omega arith) in
    let ctx : RetryCtx = record {
      retry_address = address;
      retry_callback = cb;
      timeout_id = p.next_tag;
    } in
    rw h.running (
      record {
        running = refl;
        sound = h.sound;
        queries_held = h.queries_held;
        retries_held = add-Counted p.retries p.retry_handlers b _ fresh h.retries_held;
        timed = λ tag c e. elim (insert-cases ℕ_discrete p.next_tag b p.sources tag e) [
          | inl (same_tag, same) ↦ (
            ctx,
            ap (insert ℕ_discrete b ctx p.retries) (sym same)
                ∙ insert_self ℕ_discrete b ctx p.retries,
            same_tag,
          )
          | inr old ↦
              let (x, f, named) = h.timed tag c old in
              (
                x,
                insert_ne ℕ_discrete b _ p.retries c
                      (λ same. live_apart p.retries b c x fresh f same)
                    ∙ f,
                named,
              )
        ];
        new_query = λ c later. h.new_query c (omega (arith, later));
        new_retry = fresh-insert p.retries b _ h.new_retry;
        looked = h.looked;
      },
      (
        refl,
        refl,
        refl,
        λ c x f.
            insert_ne ℕ_discrete b _ p.retries c (λ same. live_apart p.retries b c x fresh f same)
            ∙ f,
      ),
    )
  where
    live_apart :
        (t : ℕ → Option RetryCtx) (b c : ℕ) (x : RetryCtx) → t b ≡ none → t c ≡ some x → b ≡ c → ⊥
    live_apart t b c x fresh f same = let bad : none ≡ some x = sym fresh ∙ ap t same ∙ f in cc

call_back-IsHeld :
    (waits : Option (Str × Callback)) (p : Pending)
    → IsHeld p
    → IsHeld (call_back waits p) × Keeps p (call_back waits p)
call_back-IsHeld none p h = (h, (refl, refl, refl, λ b c e. e))
call_back-IsHeld (some (address, cb)) p h = start_retry-IsHeld address cb p h

-- A lookup ends before the cancellation.
pub srv_resolved-IsHeld :
    (b : ℕ) (failed : Bool) (waits : Option (Str × Callback)) (p : Pending)
    → 0 < count b p.lookups
    → IsHeld p
    → IsHeld (srv_resolved b failed waits p)
unfolding srv_resolved
srv_resolved-IsHeld b failed waits p asked h =
    let done = record p { lookups = list_remove b p.lookups } in
    let fewer : Listed p.queries (list_remove b p.lookups) =
      λ c. omega (arith, h.looked c, count-list_remove c b p.lookups) in
    let done-IsHeld : IsHeld done = record {
      running = h.running;
      sound = h.sound;
      queries_held = h.queries_held;
      retries_held = h.retries_held;
      timed = h.timed;
      new_query = h.new_query;
      new_retry = h.new_retry;
      looked = fewer;
    } in
    elim (Option-cases (p.queries b)) [
      | inl gone ↦ absurd (omega (arith, asked, h.looked b, ap tally gone))
      | inr (q, e) ↦ elim (Bool-cases failed) [
        | inl fails ↦
            let same : srv_resolved b failed waits p ≡ done =
              rw (e, srv_resolved) (rw (h.running, fails) refl) in
            subst IsHeld (sym same) done-IsHeld
        | inr answered ↦
            let called = call_back waits done in
            let (held, (lookups, queries, handlers, kept)) =
              call_back-IsHeld waits done done-IsHeld in
            let same : srv_resolved b failed waits p
                ≡ free_query b
                    (record called { query_handlers = list_remove b called.query_handlers }) =
              rw (e, srv_resolved) (rw (h.running, answered) refl) in
            subst IsHeld (sym same) (record {
              running = held.running;
              sound = held.sound;
              queries_held = drop-Counted called.queries called.query_handlers b held.queries_held;
              retries_held = held.retries_held;
              timed = held.timed;
              new_query = λ c later. remove-none called.queries b c (held.new_query c later);
              new_retry = held.new_retry;
              looked = rw (lookups, queries) (drop-Listed p.queries p.lookups b h.looked);
            })
      ]
    ]

-- A timer runs.
pub network_server_retry_cb-IsHeld :
    (tag : ℕ) (waits : Option (Str × Callback)) (p : Pending)
    → IsHeld p
    → IsHeld (network_server_retry_cb tag waits p)
unfolding network_server_retry_cb
network_server_retry_cb-IsHeld tag waits p h = elim (Option-cases (p.sources tag)) [
  | inl gone ↦ rw (gone, network_server_retry_cb) h
  | inr (b, t) ↦
      let (c, e, named) = h.timed tag b t in
      let called = call_back waits p in
      let (held, (lookups, queries, handlers, kept)) = call_back-IsHeld waits p h in
      let same : network_server_retry_cb tag waits p
          ≡ free_retry tag b
              (record called { retry_handlers = list_remove b called.retry_handlers }) =
        rw (t, network_server_retry_cb) (rw e refl) in
      subst IsHeld (sym same) (record {
        running = held.running;
        sound = held.sound;
        queries_held = held.queries_held;
        retries_held = drop-Counted called.retries called.retry_handlers b held.retries_held;
        timed = drop-Timed called.sources called.retries tag b c (kept b c e) named held.timed;
        new_query = held.new_query;
        new_retry = λ d later. remove-none called.retries b d (held.new_retry d later);
        looked = held.looked;
      })
]
