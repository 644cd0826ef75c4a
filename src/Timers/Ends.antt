-- ===== src/Timers/Ends.antt =====
-- The timeout of GetMessages and the teardown of a session: timers, and the requests that stay.
use irssi_robustirc.Base.{
  ℕ, ◌≡◌, refl, true, false, Option, none, some, List, [], ◌∷◌, ℕ_discrete, Option-cases, inl, inr,
  Bool-cases,
}
use irssi_robustirc.Base.Tables.{insert, remove, remove_self}
use irssi_robustirc.Base.Text.{Str}
use irssi_robustirc.Glib.{Glib}
use irssi_robustirc.Session.{Request, Multi, get_messages, Session, is_getmessages}
use irssi_robustirc.Completion.{World, Done, cleanup, check_message, address_of}
use irssi_robustirc.Teardown.{
  time_out, get_messages_timeout, start_again, abort_request, write_only_loop, write_only,
  destroy_loop, destroy,
}
use irssi_robustirc.Timers.{
  HasTimers, remove_timer, remove_request, change_untimed, remove-IsUntimed, IsUntimed-kind,
}
use irssi_robustirc.Timers.Starts.{request_server-HasTimers}

module _ (g : Glib) (world : World) where
  start_again-HasTimers :
      (address : Option Str) (w : Session) → HasTimers w → HasTimers (start_again g world address w)
  start_again-HasTimers none w h = h
  start_again-HasTimers (some address) w h =
      request_server-HasTimers g world address get_messages w tt h

  pub time_out-HasTimers :
      (tag curl : ℕ) (r : Request) (w : Session)
      → w.requests curl ≡ some r
      → r.timeout_tag ≡ tag
      → HasTimers w
      → HasTimers (time_out g world tag curl r w)
  unfolding time_out
  time_out-HasTimers tag curl r w e named h = start_again-HasTimers w.address _ (
      remove_request w.requests (remove ℕ_discrete tag w.timers) w.next_curl w.next_tag curl
        (rw named at (remove-IsUntimed w.requests w.timers w.next_curl w.next_tag curl r e h))
        (remove_timer w.requests w.timers w.next_curl w.next_tag tag h))

  -- The timeout of a GetMessages request frees the request and the timer together, so that every
  -- running timer stays one of a request that is not freed.
  pub get_messages_timeout-HasTimers :
      (tag : ℕ) (w : Session) → HasTimers w → HasTimers (get_messages_timeout g world tag w)
  unfolding get_messages_timeout
  get_messages_timeout-HasTimers tag w h = elim (Option-cases (w.timers tag)) [
    | inl e ↦ rw (e, get_messages_timeout) h
    | inr (curl, e) ↦
        let (r, found, kind, named) = h.live tag curl e in
        elim (Bool-cases r.has_server) [
          | inl server ↦
              rw (e, get_messages_timeout)
                (rw (found, get_messages_timeout)
                  (rw server (time_out-HasTimers tag curl r w found named h)))
          | inr lost ↦ rw (e, get_messages_timeout) (rw (found, get_messages_timeout) (rw lost h))
        ]
  ]

  -- A GetMessages request that ends while its server has no address is freed, and its timer is
  -- not removed: when it runs, it reads the freed request.
  pub lost_address_dangles :
      (multi : Multi) (d : Done) (r : Request) (w : Session)
      → d.is_done ≡ true
      → w.requests d.curl ≡ some r
      → address_of r w ≡ none
      → w.timers r.timeout_tag ≡ some d.curl
      → (get_messages_timeout g world r.timeout_tag (check_message g world multi d w)).crashed
        ≡ true
  unfolding get_messages_timeout check_message cleanup
  lost_address_dangles multi d r w done e a t =
      rw (done, e, check_message)
        (rw (a, check_message)
          (rw (t, get_messages_timeout)
            (rw (remove_self ℕ_discrete d.curl w.requests, get_messages_timeout) refl)))

pub abort-HasTimers :
    (curl : ℕ) (r : Request) (w : Session)
    → w.requests curl ≡ some r
    → HasTimers w
    → HasTimers (abort_request curl r w)
unfolding abort_request
abort-HasTimers curl r w e h = elim (Bool-cases (is_getmessages r.kind)) [
  | inl kind ↦ rw kind (
      remove_request w.requests (remove ℕ_discrete r.timeout_tag w.timers) w.next_curl w.next_tag
        curl (remove-IsUntimed w.requests w.timers w.next_curl w.next_tag curl r e h)
        (remove_timer w.requests w.timers w.next_curl w.next_tag r.timeout_tag h))
  | inr kind ↦ rw kind (
      remove_request w.requests w.timers w.next_curl w.next_tag curl
        (IsUntimed-kind w.requests w.timers w.next_curl w.next_tag curl r e kind h) h)
]

write_only_loop-HasTimers :
    (curls : List ℕ) (w : Session) → HasTimers w → HasTimers (write_only_loop curls w).1
unfolding write_only_loop abort_request
write_only_loop-HasTimers [] w h = h
write_only_loop-HasTimers (curl ∷ rest) w h = elim (Option-cases (w.requests curl)) [
  | inl e ↦ rw (e, write_only_loop) h
  | inr (r, e) ↦ elim (Bool-cases (is_getmessages r.kind)) [
    | inl kind ↦
        rw (e, write_only_loop)
          (rw kind (
            rw kind at (
              write_only_loop-HasTimers rest (abort_request curl r w)
                (abort-HasTimers curl r w e h))))
    | inr kind ↦
        rw (e, write_only_loop)
          (rw kind (
            write_only_loop-HasTimers rest
              (record w {
                requests = insert ℕ_discrete curl (record r { has_server = false }) w.requests;
              })
              (change_untimed w.requests w.timers w.next_curl w.next_tag curl _
                (h.new_handle curl r e)
                (IsUntimed-kind w.requests w.timers w.next_curl w.next_tag curl r e kind h) h)))
  ]
]

destroy_loop-HasTimers :
    (curls : List ℕ) (w : Session) → HasTimers w → HasTimers (destroy_loop curls w)
unfolding destroy_loop
destroy_loop-HasTimers [] w h = h
destroy_loop-HasTimers (curl ∷ rest) w h = elim (Option-cases (w.requests curl)) [
  | inl e ↦ rw (e, destroy_loop) h
  | inr (r, e) ↦
      rw (e, destroy_loop)
        (destroy_loop-HasTimers rest (abort_request curl r w) (abort-HasTimers curl r w e h))
]

-- Leaving the session to its outstanding PostMessages ends the GetMessages requests with their
-- timers, and tearing it down ends all requests: every timer that still runs is one of a request
-- that is not freed.
pub write_only-HasTimers :
    (w : Session) → HasTimers w → HasTimers (write_only w) × HasTimers (destroy w)
unfolding write_only destroy
write_only-HasTimers w h = (
  write_only_loop-HasTimers w.curl_handles w h,
  destroy_loop-HasTimers w.curl_handles (record w { cancelled = true; waiting = [] }) h,
)
