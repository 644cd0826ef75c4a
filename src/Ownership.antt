-- ===== src/Ownership.antt =====
-- Who owns the handle of a request: the list of the session or a request that waits for a server.
-- Only handles of the list are with libcurl or have a timer.
pub mod Starts
pub mod Events
pub mod Ends
pub mod Loops
pub mod Reach
pub mod Leaving
pub mod Quiet
pub mod Polls
use irssi_robustirc.Base.Counts.{
  count, count-append, count-list_remove, hit, hit_eq, hit_ne, hit_self, list_remove,
}
use irssi_robustirc.Base.{
  Bool-cases, ℕ, zero, suc, ◌+◌, ◌-◌, ◌≤◌, ◌<◌, ◌≡◌, ◌≢◌, refl, sym, ap, ◌∙◌, ◌⊎◌, inl, inr, Bool,
  true, false, Option, none, some, arith, ℕ_discrete, List, [], ◌∷◌, ◌++◌, if◌then◌else◌, ◌==◌,
}
use irssi_robustirc.Base.Tables.{
  insert, remove, insert_self, insert_ne, remove_self, remove_ne, insert-cases, remove-cases,
}
use irssi_robustirc.Base.Text.{Str}
use irssi_robustirc.Timers.{HasTimers}
use irssi_robustirc.Session.{
  Callback, connect_target, get_messages, retry_request, send_target, Request, Multi, Session,
}

-- The handle of a callback that sends a request again.
abbrev pub handle_of : Callback → List ℕ
handle_of (retry_request curl) = curl ∷ []
handle_of _ = []

-- The handles of the requests that wait to be sent again.
abbrev pub parked : List (Str × Callback) → List ℕ
parked [] = []
parked ((address, cb) ∷ ws) = handle_of cb ++ parked ws

-- The requests, multi handles and timers by handle or tag, the handles that wait, and the list.
pub record IsOwned (requests : ℕ → Option Request) (attached : ℕ → Option Multi)
    (timers : ℕ → Option ℕ) (waits handles : List ℕ) : Type 0 where
  pub once : (c : ℕ) → count c waits + count c handles ≤ 1
  pub live : (c : ℕ) → 0 < count c waits + count c handles → (r : Request) × (requests c ≡ some r)
  pub on_multi : (c : ℕ) (m : Multi) → attached c ≡ some m → 0 < count c handles
  pub on_timer : (tag c : ℕ) → timers tag ≡ some c → 0 < count c handles

abbrev pub HasOwners : Session → Type 0
HasOwners w = IsOwned w.requests w.attached w.timers (parked w.waiting) w.curl_handles

-- The timers and the owners of the handles
abbrev pub IsWhole : Session → Type 0
IsWhole w = HasTimers w × HasOwners w

module _ (requests : ℕ → Option Request) (attached : ℕ → Option Multi) (timers : ℕ → Option ℕ)
    (waits handles : List ℕ) where
  -- Lists that hold the same handles, or fewer waiting ones.
  pub recount :
      (waits' handles' : List ℕ)
      → ((c : ℕ) → count c waits' ≤ count c waits)
      → ((c : ℕ) → count c handles' ≡ count c handles)
      → IsOwned requests attached timers waits handles
      → IsOwned requests attached timers waits' handles'
  recount waits' handles' fewer same h = record {
    once = λ c. omega (arith, h.once c, fewer c, same c);
    live = λ c small. h.live c (omega (arith, small, fewer c, same c));
    on_multi = λ c m e. omega (arith, h.on_multi c m e, same c);
    on_timer = λ tag c e. omega (arith, h.on_timer tag c e, same c);
  }

  -- A handle that is in no list comes to the end of the session's list.
  pub join :
      (curl : ℕ) (r : Request) (multi : Multi)
      → count curl waits + count curl handles ≡ 0
      → IsOwned requests attached timers waits handles
      → IsOwned
          (insert ℕ_discrete curl r requests)
          (insert ℕ_discrete curl multi attached)
          timers
          waits
          (handles ++ curl ∷ [])
  join curl r multi fresh h = record {
    once = λ c. elim (ℕ_discrete curl c) [
      | yes same ↦
          rw (← same) (omega (arith, fresh, hit_self curl, count-append curl handles (curl ∷ [])))
      | no other ↦ omega (arith, h.once c, hit_ne curl c other, count-append c handles (curl ∷ []))
    ];
    live = λ c some_place. elim (ℕ_discrete curl c) [
      | yes same ↦ (r, rw (← same) (insert_self ℕ_discrete curl r requests))
      | no other ↦
          let (q, e) =
            h.live c (
              omega (arith, some_place, hit_ne curl c other, count-append c handles (curl ∷ []))) in
          (q, insert_ne ℕ_discrete curl r requests c other ∙ e)
    ];
    on_multi = λ c m e. elim (insert-cases ℕ_discrete curl multi attached c e) [
      | inl (same, _) ↦
          rw (← same) (omega (arith, hit_self curl, count-append curl handles (curl ∷ [])))
      | inr old ↦ omega (arith, h.on_multi c m old, count-append c handles (curl ∷ []))
    ];
    on_timer = λ tag c e. omega (arith, h.on_timer tag c e, count-append c handles (curl ∷ []));
  }

  -- A request of the table changes.
  pub change :
      (curl : ℕ) (r : Request)
      → IsOwned requests attached timers waits handles
      → IsOwned (insert ℕ_discrete curl r requests) attached timers waits handles
  change curl r h = record {
    once = h.once;
    live = λ c some_place. elim (ℕ_discrete curl c) [
      | yes same ↦ (r, rw (← same) (insert_self ℕ_discrete curl r requests))
      | no other ↦
          let (q, e) = h.live c some_place in (q, insert_ne ℕ_discrete curl r requests c other ∙ e)
    ];
    on_multi = h.on_multi;
    on_timer = h.on_timer;
  }

  -- A timer starts for a handle of the list.
  pub start_timer :
      (tag curl : ℕ)
      → 0 < count curl handles
      → IsOwned requests attached timers waits handles
      → IsOwned requests attached (insert ℕ_discrete tag curl timers) waits handles
  start_timer tag curl listed h = record {
    once = h.once;
    live = h.live;
    on_multi = h.on_multi;
    on_timer = λ t c e. elim (insert-cases ℕ_discrete tag curl timers t e) [
      | inl (_, same) ↦ rw (← same) listed
      | inr old ↦ h.on_timer t c old
    ];
  }

  -- A handle of the list that libcurl and the timers no longer know starts to wait.
  pub leave :
      (curl : ℕ) (attached' : ℕ → Option Multi) (timers' : ℕ → Option ℕ)
      → 0 < count curl handles
      → ((c : ℕ) (m : Multi) → attached' c ≡ some m → (curl ≢ c) × (attached c ≡ some m))
      → ((tag c : ℕ) → timers' tag ≡ some c → (curl ≢ c) × (timers tag ≡ some c))
      → IsOwned requests attached timers waits handles
      → IsOwned requests attached' timers' (curl ∷ waits) (list_remove curl handles)
  leave curl attached' timers' listed off_multi off_timers h = record {
    once = λ c. elim (ℕ_discrete curl c) [
      | yes same ↦
          omega (
            arith,
            rw same at listed,
            h.once c,
            hit_eq curl c same,
            count-list_remove c curl handles,
          )
      | no other ↦ omega (arith, h.once c, hit_ne curl c other, count-list_remove c curl handles)
    ];
    live = λ c some_place. h.live c (elim (ℕ_discrete curl c) [
      | yes same ↦ rw (← same) (omega (arith, listed))
      | no other ↦ omega (arith, some_place, hit_ne curl c other, count-list_remove c curl handles)
    ]);
    on_multi = λ c m e.
        let (other, old) = off_multi c m e in
        omega (arith, h.on_multi c m old, hit_ne curl c other, count-list_remove c curl handles);
    on_timer = λ tag c e.
        let (other, old) = off_timers tag c e in
        omega (arith, h.on_timer tag c old, hit_ne curl c other, count-list_remove c curl handles);
  }

-- A waiting request is freed.
pub free :
    (requests : ℕ → Option Request) (attached : ℕ → Option Multi) (timers : ℕ → Option ℕ)
    (waits handles : List ℕ) (curl : ℕ)
    → IsOwned requests attached timers (curl ∷ waits) handles
    → IsOwned (remove ℕ_discrete curl requests) attached timers waits handles
free requests attached timers waits handles curl h = record {
  once = λ c. omega (arith, h.once c);
  live = λ c some_place.
      let other : curl ≢ c =
        λ same. omega (arith, h.once curl, hit_self curl, rw (← same) at some_place) in
      let (q, e) = h.live c (omega (arith, some_place)) in
      (q, remove_ne ℕ_discrete curl requests c other ∙ e);
  on_multi = h.on_multi;
  on_timer = h.on_timer;
}
