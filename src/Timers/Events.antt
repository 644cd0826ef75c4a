-- ===== src/Timers/Events.antt =====
-- The end of a request, the timeout and the teardown keep the timers right.
use irssi_robustirc.Completion.{
  session_json, message_id, run_callback, World, Done, SessionJson, null_body, not_json, object,
  settle, retry, cleanup, finish, check_message, note_result, create_session_done, succeeded,
  is_error, is_temporary, address_of,
}
use irssi_robustirc.Base.{
  ℕ, ◌≡◌, ◌≢◌, ◌∙◌, Bool, true, false, ◌&&◌, ◌||◌, not, none, some, arith, ℕ_discrete, Option-cases,
  inl, inr, Bool-cases, ◌⊎◌,
}
use irssi_robustirc.Base.Tables.{insert_ne}
use irssi_robustirc.Base.Text.{Str}
use irssi_robustirc.Glib.{Glib}
use irssi_robustirc.Network.{Outcome, unresolved, call, later, dropped, crash}
use irssi_robustirc.Session.{
  Request, RequestType, rt_createsession, rt_deletesession, rt_postmessage, rt_getmessages, Multi,
  get_messages, retry_request, Session, is_getmessages,
}
use irssi_robustirc.Timers.{
  HasTimers, IsUntimed, remove_timer, remove_request, remove-IsUntimed, IsUntimed-kind,
}
use irssi_robustirc.Timers.Starts.{request_server-HasTimers}

module _ (g : Glib) (world : World) where
  cleanup-HasTimers :
      (multi : Multi) (curl : ℕ) (w : Session)
      → IsUntimed w.timers curl
      → HasTimers w
      → HasTimers (cleanup multi curl w)
  unfolding cleanup
  cleanup-HasTimers multi curl w untimed h =
      remove_request w.requests w.timers w.next_curl w.next_tag curl untimed h

  retry-HasTimers :
      (multi : Multi) (address : Str) (curl : ℕ) (r : Request) (w : Session)
      → w.requests curl ≡ some r
      → HasTimers w
      → HasTimers (retry g world multi address curl r w)
  unfolding retry
  retry-HasTimers multi address curl r w e h = elim (Bool-cases (is_getmessages r.kind)) [
    | inl kind ↦ rw kind (
        request_server-HasTimers g world address (retry_request curl) _
          (r, e, remove-IsUntimed w.requests w.timers w.next_curl w.next_tag curl r e h)
          (remove_timer w.requests w.timers w.next_curl w.next_tag r.timeout_tag h))
    | inr kind ↦ rw kind (
        request_server-HasTimers g world address (retry_request curl) _
          (r, e, IsUntimed-kind w.requests w.timers w.next_curl w.next_tag curl r e kind h) h)
  ]

  -- A new GetMessages leaves the requests that are there.
  start-keeps :
      (memory : Bool) (id_of : Str → ℕ) (address : Str) (o : Outcome) (curl : ℕ) (r : Request)
      (w : Session)
      → w.requests curl ≡ some r
      → HasTimers w
      → (settle memory id_of address get_messages o w).requests curl ≡ some r
  unfolding run_callback
  start-keeps true id_of address (call t) curl r w e h =
      let other : w.next_curl ≢ curl = λ same. omega (arith, same, h.new_handle curl r e) in
      insert_ne ℕ_discrete w.next_curl _ w.requests curl other ∙ e
  start-keeps false id_of address (call t) curl r w e h = e
  start-keeps memory id_of address unresolved curl r w e h = e
  start-keeps memory id_of address (later d) curl r w e h = e
  start-keeps memory id_of address dropped curl r w e h = e
  start-keeps memory id_of address crash curl r w e h = e

  create_session_done-HasTimers :
      (address : Str) (json : SessionJson) (curl : ℕ) (r : Request) (w : Session)
      → w.requests curl ≡ some r
      → HasTimers w
      → HasTimers (create_session_done g world address json w)
        × ((create_session_done g world address json w).requests curl ≡ some r)
  unfolding create_session_done
  create_session_done-HasTimers address null_body curl r w e h = (h, e)
  create_session_done-HasTimers address not_json curl r w e h = (h, e)
  create_session_done-HasTimers address (object none auth) curl r w e h = (h, e)
  create_session_done-HasTimers address (object (some id) none) curl r w e h = (h, e)
  create_session_done-HasTimers address (object (some id) (some auth)) curl r w e h = (
    request_server-HasTimers g world address get_messages _ tt h,
    start-keeps world.memory (message_id g world) address _ curl r _ e h,
  )

  pub succeeded-HasTimers :
      (address : Str) (kind : RequestType) (json : SessionJson) (curl : ℕ) (r : Request)
      (w : Session)
      → w.requests curl ≡ some r
      → HasTimers w
      → HasTimers (succeeded g world address kind json w)
        × ((succeeded g world address kind json w).requests curl ≡ some r)
  succeeded-HasTimers address rt_createsession json curl r w e h =
      create_session_done-HasTimers address json curl r w e h
  succeeded-HasTimers address rt_postmessage json curl r w e h = (h, e)
  succeeded-HasTimers address rt_deletesession json curl r w e h = (h, e)
  succeeded-HasTimers address rt_getmessages json curl r w e h = (h, e)

  -- The last branch is not reached by GetMessages.
  pub not-getmessages :
      (error temporary getmessages : Bool)
      → ((error && temporary) || (not error && getmessages)) ≡ false
      → (error && not temporary) ≡ false
      → getmessages ≡ false
  not-getmessages error temporary getmessages a b = ground arith

  pub finish-HasTimers :
      (multi : Multi) (address : Str) (d : Done) (r : Request) (json : SessionJson) (w : Session)
      → w.requests d.curl ≡ some r
      → HasTimers w
      → HasTimers (finish g world multi address d r json w)
  unfolding finish note_result
  finish-HasTimers multi address d r json w e h =
      elim (Bool-cases
        ((is_error d && is_temporary d) || (not (is_error d) && is_getmessages r.kind))) [
          | inl again ↦
              rw again
                (retry-HasTimers multi address d.curl r (note_result g world address d r w) e h)
          | inr done ↦ elim (Bool-cases (is_error d && not (is_temporary d))) [
            | inl fatal ↦ rw (done, fatal) h
            | inr fine ↦
                let noted = note_result g world address d r w in
                let (h', e') = succeeded-HasTimers address r.kind json d.curl r noted e h in
                let kind =
                  not-getmessages (is_error d) (is_temporary d) (is_getmessages r.kind) done fine in
                let after = succeeded g world address r.kind json noted in
                rw (done, fine)
                  (cleanup-HasTimers multi d.curl after
                    (IsUntimed-kind after.requests after.timers after.next_curl after.next_tag
                      d.curl r e' kind h')
                    h')
          ]
        ]

  -- Only a request whose server has no address reaches `cleanup` at once, and it has no timer.
  pub no_timer :
      (d : Done) (r : Request) (w : Session)
      → w.requests d.curl ≡ some r
      → (is_getmessages r.kind ≡ false) ⊎ ((a : Str) × (address_of r w ≡ some a))
      → HasTimers w
      → address_of r w ≡ none
      → IsUntimed w.timers d.curl
  no_timer d r w e (inl kind) h a =
      IsUntimed-kind w.requests w.timers w.next_curl w.next_tag d.curl r e kind h
  no_timer d r w e (inr (address, some_address)) h a = cc

  -- A message of libcurl about a request keeps every running timer one of a request that is not
  -- freed, if a GetMessages request still has a server with an address.
  pub check_message-HasTimers :
      (multi : Multi) (d : Done) (r : Request) (w : Session)
      → w.requests d.curl ≡ some r
      → (is_getmessages r.kind ≡ false) ⊎ ((a : Str) × (address_of r w ≡ some a))
      → HasTimers w
      → HasTimers (check_message g world multi d w)
  unfolding check_message
  check_message-HasTimers multi d r w e server h = elim (Bool-cases d.is_done) [
    | inr skipped ↦ rw skipped h
    | inl done ↦ elim (Option-cases (address_of r w)) [
      | inr (address, a) ↦
          rw (done, e, check_message)
            (rw (a, check_message)
              (finish-HasTimers multi address d r (session_json g world r) w e h))
      | inl a ↦
          rw (done, e, check_message)
            (rw (a, check_message)
              (cleanup-HasTimers multi d.curl w (no_timer d r w e server h a) h))
    ]
  ]
