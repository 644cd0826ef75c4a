-- ===== src/Timers.antt =====
-- The timers of GetMessages requests: each one that runs is for a request that is not freed, and
-- is the one that the request names.
pub mod Starts
pub mod Events
pub mod Ends
use irssi_robustirc.Base.{
  some_eq, ℕ, zero, suc, ◌+◌, ◌≤◌, ◌<◌, ◌≡◌, ◌≢◌, refl, sym, ap, ◌∙◌, ◌⊎◌, inl, inr, Bool, true,
  false, Option, none, some, arith, ℕ_discrete, Option-cases,
}
use irssi_robustirc.Base.Tables.{
  insert, remove, insert_self, insert_ne, remove_self, remove_ne, insert-cases, remove-cases,
}
use irssi_robustirc.Session.{
  Request, RequestType, rt_getmessages, rt_createsession, Session, is_getmessages,
}

-- The table of requests by handle, the table of timers by tag, and the next handle and tag.
pub record IsTimed (requests : ℕ → Option Request) (timers : ℕ → Option ℕ) (next_curl next_tag : ℕ)
    : Type 0 where
  pub live :
      (tag curl : ℕ)
      → timers tag ≡ some curl
      → (r : Request) × (requests curl ≡ some r)
        × (is_getmessages r.kind ≡ true)
        × (r.timeout_tag ≡ tag)
  pub new_tag : (tag curl : ℕ) → timers tag ≡ some curl → tag < next_tag
  pub new_handle : (curl : ℕ) (r : Request) → requests curl ≡ some r → curl < next_curl

abbrev pub HasTimers : Session → Type 0
HasTimers w = IsTimed w.requests w.timers w.next_curl w.next_tag

-- No timer is for the handle.
abbrev pub IsUntimed : (ℕ → Option ℕ) → ℕ → Type 0
IsUntimed timers curl = (tag : ℕ) → timers tag ≢ some curl

module _ (requests : ℕ → Option Request) (timers : ℕ → Option ℕ) (next_curl next_tag : ℕ) where
  -- A request with a new handle and no timer.
  pub add_untimed :
      (r : Request)
      → IsTimed requests timers next_curl next_tag
      → IsTimed (insert ℕ_discrete next_curl r requests) timers (suc next_curl) next_tag
  add_untimed r h = record {
    live = λ tag curl e.
        let (old, f, kind, named) = h.live tag curl e in
        let other : next_curl ≢ curl = λ same. omega (arith, same, h.new_handle curl old f) in
        (old, insert_ne ℕ_discrete next_curl r requests curl other ∙ f, kind, named);
    new_tag = h.new_tag;
    new_handle = λ curl q e. elim (insert-cases ℕ_discrete next_curl r requests curl e) [
      | inl (same, _) ↦ omega (arith, same)
      | inr old ↦ omega (arith, h.new_handle curl q old)
    ];
  }

  -- A request whose handle has no timer gets a timer with a new tag.
  pub add_timer :
      (curl : ℕ) (r : Request)
      → curl < next_curl
      → IsUntimed timers curl
      → is_getmessages r.kind ≡ true
      → r.timeout_tag ≡ next_tag
      → IsTimed requests timers next_curl next_tag
      → IsTimed
          (insert ℕ_discrete curl r requests)
          (insert ℕ_discrete next_tag curl timers)
          next_curl
          (suc next_tag)
  add_timer curl r small untimed kind named h = record {
    live = λ tag c e. elim (insert-cases ℕ_discrete next_tag curl timers tag e) [
      | inl (here, same) ↦
          (r, rw (← same) (insert_self ℕ_discrete curl r requests), kind, named ∙ here)
      | inr old ↦
          let (q, f, k, n) = h.live tag c old in
          (q, insert_ne ℕ_discrete curl r requests c (λ same. untimed tag (rw same old)) ∙ f, k, n)
    ];
    new_tag = λ tag c e. elim (insert-cases ℕ_discrete next_tag curl timers tag e) [
      | inl (here, _) ↦ omega (arith, here)
      | inr old ↦ omega (arith, h.new_tag tag c old)
    ];
    new_handle = λ c q e. elim (insert-cases ℕ_discrete curl r requests c e) [
      | inl (same, _) ↦ omega (arith, same)
      | inr old ↦ h.new_handle c q old
    ];
  }

  -- The request of a handle that has no timer changes.
  pub change_untimed :
      (curl : ℕ) (r : Request)
      → curl < next_curl
      → IsUntimed timers curl
      → IsTimed requests timers next_curl next_tag
      → IsTimed (insert ℕ_discrete curl r requests) timers next_curl next_tag
  change_untimed curl r small untimed h = record {
    live = λ tag c e.
        let (q, f, k, n) = h.live tag c e in
        (q, insert_ne ℕ_discrete curl r requests c (λ same. untimed tag (rw same e)) ∙ f, k, n);
    new_tag = h.new_tag;
    new_handle = λ c q e. elim (insert-cases ℕ_discrete curl r requests c e) [
      | inl (same, _) ↦ omega (arith, same)
      | inr old ↦ h.new_handle c q old
    ];
  }

  -- A request changes, but for its type and its timer.
  pub keep_request :
      (curl : ℕ) (r r' : Request)
      → requests curl ≡ some r
      → r'.kind ≡ r.kind
      → r'.timeout_tag ≡ r.timeout_tag
      → IsTimed requests timers next_curl next_tag
      → IsTimed (insert ℕ_discrete curl r' requests) timers next_curl next_tag
  keep_request curl r r' e kind tags h = record {
    live = λ tag c f.
        let (q, found, getmessages, named) = h.live tag c f in
        elim (ℕ_discrete curl c) [
          | yes same ↦
              let old : r ≡ q = some_eq (sym e ∙ (rw (← same) at found)) in
              let kinds : r.kind ≡ q.kind = ap (λ (o : Request). o.kind) old in
              let named' : r.timeout_tag ≡ q.timeout_tag =
                ap (λ (o : Request). o.timeout_tag) old in
              (
                r',
                rw (← same) (insert_self ℕ_discrete curl r' requests),
                ap is_getmessages (kind ∙ kinds) ∙ getmessages,
                tags ∙ named' ∙ named,
              )
          | no apart ↦
              (q, insert_ne ℕ_discrete curl r' requests c apart ∙ found, getmessages, named)
        ];
    new_tag = h.new_tag;
    new_handle = λ c q f. elim (insert-cases ℕ_discrete curl r' requests c f) [
      | inl (same, _) ↦ omega (arith, same, h.new_handle curl r e)
      | inr old ↦ h.new_handle c q old
    ];
  }

  pub remove_timer :
      (tag : ℕ)
      → IsTimed requests timers next_curl next_tag
      → IsTimed requests (remove ℕ_discrete tag timers) next_curl next_tag
  remove_timer tag h = record {
    live = λ t c e. h.live t c (remove-cases ℕ_discrete tag timers t e);
    new_tag = λ t c e. h.new_tag t c (remove-cases ℕ_discrete tag timers t e);
    new_handle = h.new_handle;
  }

  pub remove_request :
      (curl : ℕ)
      → IsUntimed timers curl
      → IsTimed requests timers next_curl next_tag
      → IsTimed (remove ℕ_discrete curl requests) timers next_curl next_tag
  remove_request curl untimed h = record {
    live = λ tag c e.
        let (q, f, k, n) = h.live tag c e in
        (q, remove_ne ℕ_discrete curl requests c (λ same. untimed tag (rw same e)) ∙ f, k, n);
    new_tag = h.new_tag;
    new_handle = λ c q e. h.new_handle c q (remove-cases ℕ_discrete curl requests c e);
  }

  -- Once the timer that a request names is removed, its handle has none.
  pub remove-IsUntimed :
      (curl : ℕ) (r : Request)
      → requests curl ≡ some r
      → IsTimed requests timers next_curl next_tag
      → IsUntimed (remove ℕ_discrete r.timeout_tag timers) curl
  remove-IsUntimed curl r e h tag f =
      let old = remove-cases ℕ_discrete r.timeout_tag timers tag f in
      let (q, found, k, named) = h.live tag curl old in
      let same : r.timeout_tag ≡ tag =
        ap (λ (o : Request). o.timeout_tag) (some_eq (sym e ∙ found)) ∙ named in
      let gone : none ≡ some curl = sym (remove_self ℕ_discrete tag timers) ∙ (rw same at f) in cc

  -- Only a GetMessages request has a timer.
  pub IsUntimed-kind :
      (curl : ℕ) (r : Request)
      → requests curl ≡ some r
      → is_getmessages r.kind ≡ false
      → IsTimed requests timers next_curl next_tag
      → IsUntimed timers curl
  IsUntimed-kind curl r e kind h tag f =
      let (q, found, k, named) = h.live tag curl f in
      let same : r.kind ≡ q.kind = ap (λ (o : Request). o.kind) (some_eq (sym e ∙ found)) in
      let clash : false ≡ true = sym kind ∙ ap is_getmessages same ∙ k in cc

  -- The next handle has no timer, and may be passed over.
  pub fresh-IsUntimed : IsTimed requests timers next_curl next_tag → IsUntimed timers next_curl
  fresh-IsUntimed h tag e =
      let (q, found, _, _) = h.live tag next_curl e in omega (arith, h.new_handle next_curl q found)

  pub skip_handle :
      IsTimed requests timers next_curl next_tag → IsTimed requests timers (suc next_curl) next_tag
  skip_handle h = record {
    live = h.live;
    new_tag = h.new_tag;
    new_handle = λ c q e. omega (arith, h.new_handle c q e);
  }
