-- ===== src/Pending/Reach.antt =====
-- The life of the blocks, and a lookup that ends behind the cancellation.
use irssi_robustirc.Base.{
  ℕ, ◌<◌, ◌≡◌, refl, sym, subst, ◌∙◌, ◌⊎◌, Bool, true, false, Option, none, arith, inl, inr,
}
use irssi_robustirc.Base.Counts.{count}
use irssi_robustirc.Base.Text.{Str}
use irssi_robustirc.Session.{Callback}
use irssi_robustirc.Pending.{
  Pending, nothing_pending, start_lookup, start_retry, srv_resolved, network_server_retry_cb,
  cancel,
}
use irssi_robustirc.Pending.Held.{IsHeld, IsClear}
use irssi_robustirc.Pending.Events.{
  start_lookup-IsHeld, start_retry-IsHeld, srv_resolved-IsHeld, network_server_retry_cb-IsHeld,
}
use irssi_robustirc.Pending.Cancelled.{cancel-IsClear, start_lookup-IsClear, start_retry-IsClear}

-- The states that the calls lead to, in any order. The resolver ends a lookup only once, and none of
-- them is ended here after the cancellation.
pub data Life : Pending → Type 0 where
  begins : Life nothing_pending
  looks_up : {p : Pending} (address : Str) → Life p → Life (start_lookup address p)
  waits : {p : Pending} (address : Str) (cb : Callback) → Life p → Life (start_retry address cb p)
  is_resolved :
      {p : Pending} (b : ℕ) (failed : Bool) (waiting : Option (Str × Callback))
      → Life p
      → p.cancelled ≡ false
      → 0 < count b p.lookups
      → Life (srv_resolved b failed waiting p)
  fires :
      {p : Pending} (tag : ℕ) (waiting : Option (Str × Callback))
      → Life p
      → Life (network_server_retry_cb tag waiting p)
  is_cancelled : {p : Pending} → Life p → Life (cancel p)

nothing-IsHeld : IsHeld nothing_pending
nothing-IsHeld = record {
  running = refl;
  sound = refl;
  queries_held = λ b. refl;
  retries_held = λ b. refl;
  timed = λ tag b e. cc;
  new_query = λ b later. refl;
  new_retry = λ b later. refl;
  looked = λ b. omega arith;
}

cancelled_again : (p : Pending) → IsClear p → IsClear (cancel p) × ((cancel p).lookups ≡ p.lookups)
unfolding cancel
cancelled_again p h =
    let same : cancel p ≡ p = rw h.stopped refl in
    subst (λ u. IsClear u × (u.lookups ≡ p.lookups)) (sym same) (h, refl)

fires-IsClear :
    (tag : ℕ) (waiting : Option (Str × Callback)) (p : Pending)
    → IsClear p
    → IsClear (network_server_retry_cb tag waiting p)
unfolding network_server_retry_cb
fires-IsClear tag waiting p h = rw (h.no_source tag, network_server_retry_cb) h

-- Either the session is not cancelled, and all is held, or it is, and nothing is left.
lives : {p : Pending} → Life p → IsHeld p ⊎ IsClear p
lives begins = inl nothing-IsHeld
lives (looks_up {p} address life) = elim (lives life) [
  | inl h ↦ inl (start_lookup-IsHeld address p h)
  | inr h ↦ inr (start_lookup-IsClear address p h)
]
lives (waits {p} address cb life) = elim (lives life) [
  | inl h ↦ inl (start_retry-IsHeld address cb p h).0
  | inr h ↦ inr (start_retry-IsClear address cb p h)
]
lives (is_resolved {p} b failed waiting life running asked) = elim (lives life) [
  | inl h ↦ inl (srv_resolved-IsHeld b failed waiting p asked h)
  | inr h ↦ let bad : true ≡ false = sym h.stopped ∙ running in cc
]
lives (fires {p} tag waiting life) = elim (lives life) [
  | inl h ↦ inl (network_server_retry_cb-IsHeld tag waiting p h)
  | inr h ↦ inr (fires-IsClear tag waiting p h)
]
lives (is_cancelled {p} life) = elim (lives life) [
  | inl h ↦ inr (cancel-IsClear p h).0
  | inr h ↦ inr (cancelled_again p h).0
]

clears : (p : Pending) → Life p → IsClear (cancel p) × ((cancel p).lookups ≡ p.lookups)
clears p life = elim (lives life) [ inl h ↦ cancel-IsClear p h | inr h ↦ cancelled_again p h ]

-- Whatever lookups and waiting requests a session has made, and whichever of them have ended:
-- cancelling it (which robustsession_destroy does) reads no freed memory, and afterwards every query
-- and every context of a waiting request is freed and no timer runs.
pub cancel_frees :
    (p : Pending) (b tag : ℕ)
    → Life p
    → ((cancel p).crashed ≡ false)
      × ((cancel p).queries b ≡ none)
      × ((cancel p).retries b ≡ none)
      × ((cancel p).sources tag ≡ none)
cancel_frees p b tag life =
    let (h, lookups) = clears p life in (h.sound, h.no_query b, h.no_retry b, h.no_source tag)

-- If the session is cancelled while the resolver still looks its network up, the lookup still ends
-- with a call of srv_resolved, which reads the query that resolve_cancelled has freed.
pub late_lookup_dangles :
    (p : Pending) (b : ℕ) (failed : Bool) (waiting : Option (Str × Callback))
    → Life p
    → 0 < count b p.lookups
    → (0 < count b (cancel p).lookups) × ((srv_resolved b failed waiting (cancel p)).crashed ≡ true)
unfolding srv_resolved
late_lookup_dangles p b failed waiting life asked =
    let (h, lookups) = clears p life in (rw lookups asked, rw (h.no_query b, srv_resolved) refl)
