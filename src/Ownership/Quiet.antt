-- ===== src/Ownership/Quiet.antt =====
-- What no longer happens after a session was left or destroyed.
use irssi_robustirc.Base.Counts.{count, count-list_remove, hit_self}
use irssi_robustirc.Ownership.{Multi, IsWhole, parked}
use irssi_robustirc.Ownership.Loops.{
  destroy_loop-waiting, write_only_loop-waiting, write_only-IsWhole, destroy-IsWhole,
}
use irssi_robustirc.Base.{
  some_eq, ℕ, ◌+◌, ◌<◌, ◌≡◌, ◌≢◌, refl, sym, ap, ◌∙◌, true, false, none, some, List, [], arith,
  ℕ_discrete, Option-cases, inl, inr, ◌≤◌,
}
use irssi_robustirc.Base.Tables.{remove_self}
use irssi_robustirc.Glib.{Glib}
use irssi_robustirc.Session.{Request, Session, is_getmessages, multi_remove}
use irssi_robustirc.Teardown.{write_only, destroy}
use irssi_robustirc.Ownership.Reach.{reachable-IsWhole}
use irssi_robustirc.Completion.{World, Done, check_message, address_of, cleanup}
use irssi_robustirc.Ownership.Leaving.{IsLeft, Leaves, write_only-Leaves, write_only_loop-other}
use irssi_robustirc.Runs.{Reach}

no_longer_listed :
    (w : Session) (c : ℕ) → count c w.curl_handles ≡ 0 → count c (write_only w).curl_handles ≡ 0
unfolding write_only IsLeft
no_longer_listed w c out = (write_only_loop-other c w.curl_handles w out).2

not-kept :
    (w : Session) (c : ℕ) (r q : Request)
    → Leaves c r w ((write_only w).curl_handles, write_only w)
    → 0 < count c (write_only w).curl_handles
    → (write_only w).requests c ≡ some q
    → is_getmessages q.kind ≢ true
unfolding Leaves
not-kept w c r q (inl (_, out, _, _)) listed e kind = omega (arith, out, listed)
not-kept w c r q (inr (other, _, f, _)) listed e kind =
    let same : some (record r { has_server = false }) ≡ some q = sym f ∙ e in
    let kinds : r.kind ≡ q.kind = ap (λ (o : Request). o.kind) (some_eq same) in
    let clash : false ≡ true = sym other ∙ ap is_getmessages kinds ∙ kind in cc

-- With an empty list, libcurl has no handle and no timer runs.
unlisted :
    (w : Session) (tag c : ℕ)
    → w.curl_handles ≡ []
    → IsWhole w
    → (w.timers tag ≡ none) × (w.attached c ≡ none)
unlisted w tag c e (t, h) = (
  elim (Option-cases (w.timers tag)) [
    | inl none_left ↦ none_left
    | inr (curl, f) ↦ absurd (nothing (w.curl_handles) curl e (h.on_timer tag curl f))
  ],
  elim (Option-cases (w.attached c)) [
    | inl off ↦ off
    | inr (m, f) ↦ absurd (nothing w.curl_handles c e (h.on_multi c m f))
  ],
)
  where
    nothing : (l : List ℕ) (c : ℕ) → l ≡ [] → 0 < count c l → ⊥
    nothing l c e listed = let here : 0 < 0 = (rw e at listed) in omega (arith, here)

destroy-empty : (w : Session) → ((destroy w).curl_handles ≡ []) × ((destroy w).waiting ≡ [])
unfolding destroy
destroy-empty w =
    (refl, destroy_loop-waiting w.curl_handles (record w { cancelled = true; waiting = [] }))

-- A timer after robustsession_write_only would be one of a GetMessages request of the list.
write_only-untimed : (w : Session) (tag : ℕ) → IsWhole w → (write_only w).timers tag ≡ none
write_only-untimed w tag h = elim (Option-cases ((write_only w).timers tag)) [
  | inl e ↦ e
  | inr (curl, e) ↦
      let after = write_only-IsWhole w h in
      let (q, f, kind, _) = after.0.live tag curl e in
      let listed = after.1.on_timer tag curl e in
      elim (ℕ_discrete (count curl w.curl_handles) 0) [
        | yes out ↦ absurd (omega (arith, listed, no_longer_listed w curl out))
        | no was ↦
            let (r, found) = h.1.live curl (omega (arith, was)) in
            absurd (
              not-kept w curl r q (write_only-Leaves w curl r h (omega (arith, was)) found) listed f
                kind)
      ]
]

write_only-waiting : (w : Session) → (write_only w).waiting ≡ w.waiting
unfolding write_only
write_only-waiting w = write_only_loop-waiting w.curl_handles w

-- In a session that robustsession_connect and any order of events lead to, where every GetMessages
-- that ended had a server with an address when it ended: when robustsession_write_only or
-- robustsession_destroy returns, no timer of a GetMessages request runs. After the former the
-- requests that wait for a server still wait, a GetMessages among them; after the latter no handle
-- is with libcurl and no request waits.
pub teardown_quiet :
    {g : Glib} (w : Session) (tag c : ℕ)
    → Reach g w
    → ((write_only w).timers tag ≡ none)
      × ((write_only w).waiting ≡ w.waiting)
      × ((destroy w).timers tag ≡ none)
      × ((destroy w).attached c ≡ none)
      × ((destroy w).waiting ≡ [])
teardown_quiet w tag c run =
    let whole = reachable-IsWhole run in
    let (e, no_waiting) = destroy-empty w in
    let (untimed, off) = unlisted (destroy w) tag c e (destroy-IsWhole w whole) in
    (write_only-untimed w tag whole, write_only-waiting w, untimed, off, no_waiting)

cleanup-ends :
    (multi : Multi) (curl : ℕ) (w : Session)
    → 0 < count curl w.curl_handles
    → count curl (parked w.waiting) + count curl w.curl_handles ≤ 1
    → let w' = cleanup multi curl w in
      (w'.requests curl ≡ none)
      × (w'.attached curl ≡ none)
      × (count curl w'.curl_handles ≡ 0)
      × (w'.sent ≡ w.sent)
      × (w'.waiting ≡ w.waiting)
      × (w'.networks ≡ w.networks)
      × (w'.crashed ≡ w.crashed)
unfolding cleanup
cleanup-ends multi curl w listed once = (
  remove_self ℕ_discrete curl w.requests,
  remove_self ℕ_discrete curl (multi_remove multi curl w).attached,
  omega (arith, listed, once, count-list_remove curl curl w.curl_handles, hit_self curl),
  refl,
  refl,
  refl,
  refl,
)

-- In a session that the events lead to, a request that ends without a server (the session was
-- left) is freed and nothing follows: its handle is off the list and the multi handle, no request
-- is sent or starts to wait, and the standing of the servers stays.
pub left_request_ends :
    (g : Glib) (world : World) (multi : Multi) (d : Done) (r : Request) (w : Session)
    → Reach g w
    → d.is_done ≡ true
    → w.attached d.curl ≡ some multi
    → w.requests d.curl ≡ some r
    → address_of r w ≡ none
    → let w' = check_message g world multi d w in
      (w'.requests d.curl ≡ none)
      × (w'.attached d.curl ≡ none)
      × (count d.curl w'.curl_handles ≡ 0)
      × (w'.sent ≡ w.sent)
      × (w'.waiting ≡ w.waiting)
      × (w'.networks ≡ w.networks)
      × (w'.crashed ≡ w.crashed)
unfolding check_message
left_request_ends g world multi d r w run done on e a =
    let (t, h) = reachable-IsWhole run in
    rw (done, e, check_message)
      (rw (a, check_message)
        (cleanup-ends multi d.curl w (h.on_multi d.curl multi on) (h.once d.curl)))
