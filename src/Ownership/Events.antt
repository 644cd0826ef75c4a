-- ===== src/Ownership/Events.antt =====
-- The end of a request keeps the owners of the handles right.
use irssi_robustirc.Base.Counts.{count, count-append, list_remove}
use irssi_robustirc.Completion.{
  message_id, session_json, World, Done, SessionJson, null_body, not_json, object, run_callback,
  settle, retry, cleanup, finish, check_message, note_result, create_session_done, succeeded,
  is_error, is_temporary, address_of, session_created,
}
use irssi_robustirc.Base.Text.{c_string, Str}
use irssi_robustirc.Base.{
  ℕ, ◌<◌, ◌≡◌, ◌≢◌, refl, sym, ◌∙◌, Bool, true, false, ◌&&◌, ◌||◌, not, Option, none, some, [], ◌∷◌,
  arith, ℕ_discrete, Option-cases, inl, inr, Bool-cases, ◌⊎◌,
}
use irssi_robustirc.Base.Tables.{remove, remove_self, remove-cases}
use irssi_robustirc.Glib.{Glib}
use irssi_robustirc.Network.{Outcome, unresolved, call, later, dropped, crash}
use irssi_robustirc.Session.{
  Request, RequestType, rt_createsession, rt_deletesession, rt_postmessage, rt_getmessages, Multi,
  curl_handle, curl_handle_gm, get_messages, retry_request, Session, is_getmessages, is_multi,
  multi_remove, forget_handle, stop_timer,
}
use irssi_robustirc.Timers.{HasTimers, IsUntimed, remove-IsUntimed, IsUntimed-kind, remove_timer}
use irssi_robustirc.Ownership.{IsOwned, HasOwners, IsWhole, parked, leave, free}
use irssi_robustirc.Timers.Events.{
  succeeded-HasTimers, not-getmessages, check_message-HasTimers, no_timer,
}
use irssi_robustirc.Ownership.Starts.{request_server-IsWhole}

-- What a table without a key can hold.
pub off_table {ℓ} :
    {V : Type ℓ} (curl : ℕ) (t : ℕ → Option V) (c : ℕ) (m : V)
    → remove ℕ_discrete curl t c ≡ some m
    → (curl ≢ c) × (t c ≡ some m)
off_table curl t c m e = (
  λ same. let gone : none ≡ some m = sym (remove_self ℕ_discrete curl t) ∙ (rw (← same) at e) in cc,
  remove-cases ℕ_discrete curl t c e,
)

pub is_multi_self : (m : Multi) → is_multi (some m) m ≡ true
is_multi_self curl_handle = refl
is_multi_self curl_handle_gm = refl

-- Taken off the multi handle that it is on, a handle is on none.
multi_remove-off :
    (multi : Multi) (curl : ℕ) (w : Session)
    → w.attached curl ≡ some multi
    → (multi_remove multi curl w).attached ≡ remove ℕ_discrete curl w.attached
unfolding multi_remove
multi_remove-off multi curl w e = rw (e, is_multi_self multi) refl

-- The frees after the handle was taken off a multi handle, whichever.
pub off_freed :
    (multi : Multi) (curl : ℕ) (w : Session) (c : ℕ) (m : Multi)
    → remove ℕ_discrete curl (multi_remove multi curl w).attached c ≡ some m
    → (curl ≢ c) × (w.attached c ≡ some m)
unfolding multi_remove
off_freed multi curl w c m e =
    let (other, old) = off_table curl (multi_remove multi curl w).attached c m e in
    (
      other,
      elim (Bool-cases (is_multi (w.attached curl) multi)) [
        | inl on ↦ remove-cases ℕ_discrete curl w.attached c (rw on at old)
        | inr off ↦ rw off at old
      ],
    )

-- A timer that is left is one from before and not of the request's handle.
pub untimed_off :
    (curl : ℕ) (timers : ℕ → Option ℕ)
    → IsUntimed timers curl
    → (tag c : ℕ) → timers tag ≡ some c
    → (curl ≢ c) × (timers tag ≡ some c)
untimed_off curl timers untimed tag c e = (λ same. untimed tag (rw same e), e)

cleanup-HasOwners :
    (multi : Multi) (curl : ℕ) (w : Session)
    → 0 < count curl w.curl_handles
    → IsUntimed w.timers curl
    → HasOwners w
    → HasOwners (cleanup multi curl w)
unfolding cleanup
cleanup-HasOwners multi curl w listed untimed h =
    free w.requests _ w.timers (parked w.waiting) (list_remove curl w.curl_handles) curl (
      leave w.requests w.attached w.timers (parked w.waiting) w.curl_handles curl _ w.timers listed
        (off_freed multi curl w) (untimed_off curl w.timers untimed) h)

-- After its timer is removed, a request has none, and no other timer started.
pub stopped_off :
    (curl : ℕ) (r : Request) (w : Session)
    → w.requests curl ≡ some r
    → HasTimers w
    → (tag c : ℕ) → (stop_timer r w).timers tag ≡ some c
    → (curl ≢ c) × (w.timers tag ≡ some c)
unfolding stop_timer
stopped_off curl r w e t tag c timed = elim (Bool-cases (is_getmessages r.kind)) [
  | inl kind ↦ (
    λ same.
        remove-IsUntimed w.requests w.timers w.next_curl w.next_tag curl r e t tag
          (rw (kind, ← same) at timed),
    remove-cases ℕ_discrete r.timeout_tag w.timers tag (rw kind at timed),
  )
  | inr kind ↦
      untimed_off curl w.timers
        (IsUntimed-kind w.requests w.timers w.next_curl w.next_tag curl r e kind t) tag c
        (rw kind at timed)
]

-- A request that is retried waits: its handle is off the list and the multi handle, and its timer
-- is removed.
stop-IsOwned :
    (multi : Multi) (curl : ℕ) (r : Request) (w : Session)
    → w.attached curl ≡ some multi
    → w.requests curl ≡ some r
    → IsWhole w
    → IsOwned w.requests
        (multi_remove multi curl w).attached
        (stop_timer r w).timers
        (curl ∷ parked w.waiting)
        (list_remove curl w.curl_handles)
unfolding stop_timer
stop-IsOwned multi curl r w on e (t, h) =
    leave w.requests w.attached w.timers (parked w.waiting) w.curl_handles curl _ _
      (h.on_multi curl multi on)
      (λ c m at_multi.
        off_table curl w.attached c m (rw (multi_remove-off multi curl w on) at at_multi))
      (stopped_off curl r w e t) h

stop-HasTimers : (r : Request) (w : Session) → HasTimers w → HasTimers (stop_timer r w)
unfolding stop_timer
stop-HasTimers r w t = elim (Bool-cases (is_getmessages r.kind)) [
  | inl kind ↦ rw kind (remove_timer w.requests w.timers w.next_curl w.next_tag r.timeout_tag t)
  | inr kind ↦ rw kind t
]

module _ (g : Glib) (world : World) where
  retry-HasOwners :
      (multi : Multi) (address : Str) (curl : ℕ) (r : Request) (w : Session)
      → w.attached curl ≡ some multi
      → w.requests curl ≡ some r
      → IsWhole w
      → HasOwners (retry g world multi address curl r w)
  unfolding retry
  retry-HasOwners multi address curl r w on e h =
      let stopped = stop_timer r (forget_handle curl (multi_remove multi curl w)) in
      (request_server-IsWhole g world address (retry_request curl) stopped (stop-HasTimers r w h.0)
        (stop-IsOwned multi curl r w on e h)).1

  -- A new GetMessages leaves the handles of the list.
  start-lists :
      (memory : Bool) (id_of : Str → ℕ) (address : Str) (o : Outcome) (curl : ℕ) (w : Session)
      → 0 < count curl w.curl_handles
      → 0 < count curl (settle memory id_of address get_messages o w).curl_handles
  unfolding run_callback
  start-lists true id_of address (call t) curl w listed =
      omega (arith, listed, count-append curl w.curl_handles (w.next_curl ∷ []))
  start-lists false id_of address (call t) curl w listed = listed
  start-lists memory id_of address unresolved curl w listed = listed
  start-lists memory id_of address (later d) curl w listed = listed
  start-lists memory id_of address dropped curl w listed = listed
  start-lists memory id_of address crash curl w listed = listed

  succeeded-HasOwners :
      (address : Str) (kind : RequestType) (json : SessionJson) (curl : ℕ) (w : Session)
      → 0 < count curl w.curl_handles
      → IsWhole w
      → HasOwners (succeeded g world address kind json w)
        × (0 < count curl (succeeded g world address kind json w).curl_handles)
  unfolding create_session_done
  succeeded-HasOwners address rt_createsession null_body curl w listed h = (h.1, listed)
  succeeded-HasOwners address rt_createsession not_json curl w listed h = (h.1, listed)
  succeeded-HasOwners address rt_createsession (object none auth) curl w listed h = (h.1, listed)
  succeeded-HasOwners address rt_createsession (object (some id) none) curl w listed h =
      (h.1, listed)
  succeeded-HasOwners address rt_createsession (object (some id) (some auth)) curl w listed h = (
    (request_server-IsWhole g world address get_messages
        (session_created (c_string id) (c_string auth) w) h.0 h.1).1,
    start-lists world.memory (message_id g world) address _ curl _ listed,
  )
  succeeded-HasOwners address rt_postmessage json curl w listed h = (h.1, listed)
  succeeded-HasOwners address rt_deletesession json curl w listed h = (h.1, listed)
  succeeded-HasOwners address rt_getmessages json curl w listed h = (h.1, listed)

  finish-HasOwners :
      (multi : Multi) (address : Str) (d : Done) (r : Request) (json : SessionJson) (w : Session)
      → w.attached d.curl ≡ some multi
      → w.requests d.curl ≡ some r
      → IsWhole w
      → HasOwners (finish g world multi address d r json w)
  unfolding finish note_result
  finish-HasOwners multi address d r json w on e h =
      elim (Bool-cases
        ((is_error d && is_temporary d) || (not (is_error d) && is_getmessages r.kind))) [
          | inl again ↦
              rw again
                (retry-HasOwners multi address d.curl r (note_result g world address d r w) on e h)
          | inr done ↦ elim (Bool-cases (is_error d && not (is_temporary d))) [
            | inl fatal ↦ rw (done, fatal) h.1
            | inr fine ↦
                let noted = note_result g world address d r w in
                let (t, e') =
                  succeeded-HasTimers g world address r.kind json d.curl r noted e h.0 in
                let (owned, listed) =
                  succeeded-HasOwners address r.kind json d.curl noted
                    (h.1.on_multi d.curl multi on) h in
                let kind =
                  not-getmessages g world (is_error d) (is_temporary d) (is_getmessages r.kind) done
                    fine in
                let after = succeeded g world address r.kind json noted in
                rw (done, fine)
                  (cleanup-HasOwners multi d.curl after listed
                    (IsUntimed-kind after.requests after.timers after.next_curl after.next_tag
                      d.curl r e' kind t)
                    owned)
          ]
        ]

  -- A message of libcurl about a request that is on the multi handle.
  pub check_message-IsWhole :
      (multi : Multi) (d : Done) (r : Request) (w : Session)
      → w.attached d.curl ≡ some multi
      → w.requests d.curl ≡ some r
      → (is_getmessages r.kind ≡ false) ⊎ ((a : Str) × (address_of r w ≡ some a))
      → IsWhole w
      → IsWhole (check_message g world multi d w)
  unfolding check_message
  check_message-IsWhole multi d r w on e server h =
      (check_message-HasTimers g world multi d r w e server h.0, owned)
    where
      owned : HasOwners (check_message g world multi d w)
      owned = elim (Bool-cases d.is_done) [
        | inr skipped ↦ rw skipped h.1
        | inl done ↦ elim (Option-cases (address_of r w)) [
          | inr (address, a) ↦
              rw (done, e, check_message)
                (rw (a, check_message)
                  (finish-HasOwners multi address d r (session_json g world r) w on e h))
          | inl a ↦
              rw (done, e, check_message)
                (rw (a, check_message)
                  (cleanup-HasOwners multi d.curl w (h.1.on_multi d.curl multi on)
                    (no_timer g world d r w e server h.0 a) h.1))
        ]
      ]
