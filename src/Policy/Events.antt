-- ===== src/Policy/Events.antt =====
-- The end of a request and a call of robustsession_network_server keep to the rules.
use irssi_robustirc.Base.{
  subst, List, [], ◌∷◌, zero, suc, ◌||◌, ℕ, ◌≡◌, inl, inr, not, ◌&&◌, none, some, ℕ_discrete,
  Bool-cases, Option-cases,
}
use irssi_robustirc.Policy.{
  created, basics, IsAllowedWaiting, IsAllowed, Basics, Policy, IsGood, Follows, add_good,
  drop_good, settle-Follows,
}
use irssi_robustirc.Base.Text.{c_string, Str}
use irssi_robustirc.Completion.{
  session_created, World, Done, SessionJson, null_body, not_json, object, address_of, session_json,
  take_waiting, request_server, server_retry_cb, create_session_done, succeeded, retry, finish,
  cleanup, check_message, is_error, is_temporary, note_result,
}
use irssi_robustirc.Base.Lists.{All, All-imp}
use irssi_robustirc.Base.Tables.{insert}
use irssi_robustirc.Glib.{Glib}
use irssi_robustirc.Session.{
  Request, Multi, Session, is_getmessages, get_messages, retry_request, stop_timer, forget_handle,
  multi_remove, free_request, RequestType, rt_createsession, rt_deletesession, rt_postmessage,
  rt_getmessages, Callback, connect_target, send_target,
}

-- A waiting request leaves the others.
take_waiting-All :
    (P : Str × Callback → Type 0) (i : ℕ) (ws : List (Str × Callback)) (x : Str × Callback)
    (rest : List (Str × Callback))
    → take_waiting i ws ≡ some (x, rest)
    → All P ws
    → P x × All P rest
take_waiting-All P i [] x rest e h = cc
take_waiting-All P zero (y ∷ ys) x rest e (here, others) =
    let same : y ≡ x = cc in
    let same_others : ys ≡ rest = cc in (subst P same here, subst (All P) same_others others)
take_waiting-All P (suc i) (y ∷ ys) x rest e (here, others) =
    elim (Option-cases (take_waiting i ys)) [
      | inl none_left ↦ let gone = (rw none_left at e) in cc
      | inr ((z, zs), found) ↦
          let e' = (rw found at e) in
          let same : z ≡ x = cc in
          let same_others : y ∷ zs ≡ rest = cc in
          let (taken, left) = take_waiting-All P i ys z zs found others in
          (subst P same taken, subst (All P) same_others (here, left))
    ]

module _ (p : Policy) where
  -- Another state of a request with the same options and of the same type
  pub change-Follows :
      (curl : ℕ) (r q : Request) (w : Session)
      → w.requests curl ≡ some r
      → IsGood p (basics w) q ≡ IsGood p (basics w) r
      → Follows p w
      → Follows p (record w { requests = insert ℕ_discrete curl q w.requests })
  change-Follows curl r q w e same (s, all, waits) =
      (s, add_good p (basics w) curl q w.requests (rw same (all curl r e)) all, waits)

  pub free-Follows : (curl : ℕ) (w : Session) → Follows p w → Follows p (free_request curl w)
  unfolding free_request
  free-Follows curl w (s, all, waits) = (s, drop_good p (basics w) curl w.requests all, waits)

  -- create_session_done allows more callbacks.
  created-IsAllowed :
      (id auth : Str) (b : Basics) (cb : Callback)
      → IsAllowed p b cb
      → IsAllowed p (created id auth b) cb
  created-IsAllowed id auth b connect_target a = tt
  created-IsAllowed id auth b get_messages a = p.starts_polls id auth b
  created-IsAllowed id auth b (retry_request c) a = tt
  created-IsAllowed id auth b (send_target s) a = tt

  module _ (g : Glib) (world : World) where
    pub request_server-Follows :
        (address : Str) (cb : Callback) (w : Session)
        → IsAllowed p (basics w) cb
        → Follows p w
        → Follows p (request_server g world address cb w)
    unfolding request_server
    request_server-Follows address cb w allowed h =
        settle-Follows p _ _ address cb _ (record w { networks = _ }) allowed h

    pub server_retry_cb-Follows :
        (i : ℕ) (w : Session) → Follows p w → Follows p (server_retry_cb g world i w)
    unfolding server_retry_cb
    server_retry_cb-Follows i w (s, all, waits) = elim (Option-cases (take_waiting i w.waiting)) [
      | inl gone ↦ rw (gone, server_retry_cb) (s, all, waits)
      | inr (((address, cb), rest), e) ↦
          rw (e, server_retry_cb)
            (let (allowed, others) =
                take_waiting-All (IsAllowedWaiting p (basics w)) i w.waiting (address, cb) rest e
                  waits in
              request_server-Follows address cb (record w { waiting = rest }) allowed
                (s, all, others))
    ]

    session_created-Follows :
        (id auth : Str) (w : Session) → Follows p w → Follows p (session_created id auth w)
    session_created-Follows id auth w (s, all, waits) = (
      p.starts id auth (basics w) s,
      λ c r e. p.keeps id auth (basics w) r.kind r.url_suffix r.options (all c r e),
      All-imp (λ x a. created-IsAllowed id auth (basics w) x.1 a) w.waiting waits,
    )

    succeeded-Follows :
        (address : Str) (kind : RequestType) (json : SessionJson) (w : Session)
        → Follows p w
        → Follows p (succeeded g world address kind json w)
    unfolding create_session_done
    succeeded-Follows address rt_createsession null_body w h = h
    succeeded-Follows address rt_createsession not_json w h = h
    succeeded-Follows address rt_createsession (object none auth) w h = h
    succeeded-Follows address rt_createsession (object (some id) none) w h = h
    succeeded-Follows address rt_createsession (object (some id) (some auth)) w h =
        request_server-Follows address get_messages
          (session_created (c_string id) (c_string auth) w)
          (p.starts_polls (c_string id) (c_string auth) (basics w))
          (session_created-Follows (c_string id) (c_string auth) w h)
    succeeded-Follows address rt_postmessage json w h = h
    succeeded-Follows address rt_deletesession json w h = h
    succeeded-Follows address rt_getmessages json w h = h

    cleanup-Follows :
        (multi : Multi) (curl : ℕ) (w : Session) → Follows p w → Follows p (cleanup multi curl w)
    unfolding cleanup
    cleanup-Follows multi curl w (s, all, waits) =
        (s, drop_good p (basics w) curl w.requests all, waits)

    retry-Follows :
        (multi : Multi) (address : Str) (curl : ℕ) (r : Request) (w : Session)
        → Follows p w
        → Follows p (retry g world multi address curl r w)
    unfolding retry
    retry-Follows multi address curl r w h =
        request_server-Follows address (retry_request curl)
          (stop_timer r (forget_handle curl (multi_remove multi curl w))) tt h

    finish-Follows :
        (multi : Multi) (address : Str) (d : Done) (r : Request) (json : SessionJson) (w : Session)
        → Follows p w
        → Follows p (finish g world multi address d r json w)
    unfolding finish note_result
    finish-Follows multi address d r json w h =
        let noted = note_result g world address d r w in
        elim (Bool-cases
          ((is_error d && is_temporary d) || (not (is_error d) && is_getmessages r.kind))) [
            | inl again ↦ rw again (retry-Follows multi address d.curl r noted h)
            | inr settled ↦ elim (Bool-cases (is_error d && not (is_temporary d))) [
              | inl permanent ↦ rw (settled, permanent) h
              | inr fine ↦
                  rw (settled, fine)
                    (cleanup-Follows multi d.curl (succeeded g world address r.kind json noted)
                      (succeeded-Follows address r.kind json noted h))
            ]
          ]

    pub check_message-Follows :
        (multi : Multi) (d : Done) (w : Session)
        → Follows p w
        → Follows p (check_message g world multi d w)
    unfolding check_message
    check_message-Follows multi d w h = elim (Bool-cases d.is_done) [
      | inr other ↦ rw (other, check_message) h
      | inl done ↦ elim (Option-cases (w.requests d.curl)) [
        | inl gone ↦ rw (done, gone, check_message) h
        | inr (r, e) ↦ elim (Option-cases (address_of r w)) [
          | inl a ↦
              rw (done, e, check_message) (rw (a, check_message) (cleanup-Follows multi d.curl w h))
          | inr (address, a) ↦
              rw (done, e, check_message)
                (rw (a, check_message)
                  (finish-Follows multi address d r (session_json g world r) w h))
        ]
      ]
    ]
