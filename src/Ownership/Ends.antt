-- ===== src/Ownership/Ends.antt =====
-- The timeouts, the requests that waited and the teardown keep the owners of the handles right.
use irssi_robustirc.Base.Counts.{count, count-append, list_remove}
use irssi_robustirc.Base.{
  ℕ, zero, suc, ◌≡◌, refl, true, Option, none, some, List, [], ◌∷◌, ◌++◌, arith, ℕ_discrete,
  Option-cases, inl, inr, Bool-cases,
}
use irssi_robustirc.Base.Tables.{remove, remove-cases}
use irssi_robustirc.Base.Text.{Str}
use irssi_robustirc.Glib.{Glib}
use irssi_robustirc.Session.{
  Request, Multi, curl_handle_gm, Callback, get_messages, Session, is_getmessages, multi_remove,
  forget_handle, free_request, source_remove, restart_timer,
}
use irssi_robustirc.Completion.{World, server_retry_cb, take_waiting}
use irssi_robustirc.Teardown.{time_out, get_messages_timeout, start_again, note_timeout}
use irssi_robustirc.Timers.{
  HasTimers, IsUntimed, remove-IsUntimed, remove_timer, remove_request, add_timer,
}
use irssi_robustirc.Timers.Ends.{get_messages_timeout-HasTimers}
use irssi_robustirc.Ownership.{
  HasOwners, IsWhole, parked, handle_of, leave, free, recount, change, start_timer,
}
use irssi_robustirc.Ownership.Starts.{request_server-IsWhole}
use irssi_robustirc.Ownership.Events.{off_freed, untimed_off}

-- A ping gives a GetMessages request a new timer.
pub restart_timer-IsWhole :
    (multi : Multi) (curl : ℕ) (r : Request) (w : Session)
    → w.attached curl ≡ some multi
    → w.requests curl ≡ some r
    → is_getmessages r.kind ≡ true
    → IsWhole w
    → IsWhole (restart_timer curl r w)
unfolding restart_timer
restart_timer-IsWhole multi curl r w on e kind (t, h) = (
  add_timer w.requests (remove ℕ_discrete r.timeout_tag w.timers) w.next_curl w.next_tag curl
      (record r { timeout_tag = w.next_tag }) (t.new_handle curl r e)
      (remove-IsUntimed w.requests w.timers w.next_curl w.next_tag curl r e t) kind refl
      (remove_timer w.requests w.timers w.next_curl w.next_tag r.timeout_tag t),
  start_timer _ w.attached (remove ℕ_discrete r.timeout_tag w.timers) (parked w.waiting)
      w.curl_handles w.next_tag curl (h.on_multi curl multi on)
      (change w.requests w.attached (remove ℕ_discrete r.timeout_tag w.timers) (parked w.waiting)
        w.curl_handles curl _
        (record {
          once = h.once;
          live = h.live;
          on_multi = h.on_multi;
          on_timer = λ t c f. h.on_timer t c (remove-cases ℕ_discrete r.timeout_tag w.timers t f);
        })),
)

taken-count :
    (c i : ℕ) (ws : List (Str × Callback)) (x : Str × Callback) (rest : List (Str × Callback))
    → take_waiting i ws ≡ some (x, rest)
    → count c (parked (x ∷ rest)) ≡ count c (parked ws)
taken-count c i [] x rest e = cc
taken-count c zero (y ∷ ys) x rest e =
    let here : y ≡ x = cc in let others : ys ≡ rest = cc in rw (here, others) refl
taken-count c (suc i) (y ∷ ys) x rest e = elim (Option-cases (take_waiting i ys)) [
  | inl none_left ↦ let gone = (rw none_left at e) in cc
  | inr ((z, zs), found) ↦
      let e' = (rw found at e) in
      let here : z ≡ x = cc in
      let others : y ∷ zs ≡ rest = cc in
      let before = taken-count c i ys z zs found in
      rw (← here, ← others)
        (omega (
          arith,
          before,
          count-append c (handle_of z.1) (parked zs),
          count-append c (handle_of y.1) (parked zs),
          count-append c (handle_of y.1) (parked ys),
          count-append c (handle_of z.1) (handle_of y.1 ++ parked zs),
        ))
]

module _ (g : Glib) (world : World) where
  -- The request that the timer is for is freed with it.
  time_out-HasOwners :
      (tag curl : ℕ) (r : Request) (w : Session)
      → w.timers tag ≡ some curl
      → w.requests curl ≡ some r
      → r.timeout_tag ≡ tag
      → IsWhole w
      → HasOwners (time_out g world tag curl r w)
  unfolding time_out
  time_out-HasOwners tag curl r w timed e named (t, h) = again w.address
    where
      freed : Session
      freed = free_request curl (
          forget_handle curl
            (multi_remove curl_handle_gm curl (note_timeout g world r (source_remove tag w))))

      untimed : IsUntimed (remove ℕ_discrete tag w.timers) curl
      untimed = rw named at (remove-IsUntimed w.requests w.timers w.next_curl w.next_tag curl r e t)

      freed-HasTimers : HasTimers freed
      freed-HasTimers =
          remove_request w.requests (remove ℕ_discrete tag w.timers) w.next_curl w.next_tag curl
            untimed (remove_timer w.requests w.timers w.next_curl w.next_tag tag t)

      freed-HasOwners : HasOwners freed
      freed-HasOwners =
          free w.requests _ _ (parked w.waiting) (list_remove curl w.curl_handles) curl (
            leave w.requests w.attached w.timers (parked w.waiting) w.curl_handles curl _
              (remove ℕ_discrete tag w.timers) (h.on_timer tag curl timed)
              (off_freed curl_handle_gm curl w)
              (λ tag' c f.
                let (other, old) =
                  untimed_off curl (remove ℕ_discrete tag w.timers) untimed tag' c f in
                (other, remove-cases ℕ_discrete tag w.timers tag' old))
              h)

      again : (address : Option Str) → HasOwners (start_again g world address freed)
      again none = freed-HasOwners
      again (some address) =
          (request_server-IsWhole g world address get_messages freed freed-HasTimers
            freed-HasOwners).1

  pub get_messages_timeout-IsWhole :
      (tag : ℕ) (w : Session) → IsWhole w → IsWhole (get_messages_timeout g world tag w)
  unfolding get_messages_timeout
  get_messages_timeout-IsWhole tag w h = (get_messages_timeout-HasTimers g world tag w h.0, owned)
    where
      owned : HasOwners (get_messages_timeout g world tag w)
      owned = elim (Option-cases (w.timers tag)) [
        | inl e ↦ rw (e, get_messages_timeout) h.1
        | inr (curl, e) ↦
            let (r, found, kind, named) = h.0.live tag curl e in
            elim (Bool-cases r.has_server) [
              | inl server ↦
                  rw (e, get_messages_timeout)
                    (rw (found, get_messages_timeout)
                      (rw server (time_out-HasOwners tag curl r w e found named h)))
              | inr lost ↦
                  rw (e, get_messages_timeout) (rw (found, get_messages_timeout) (rw lost h.1))
            ]
      ]

  -- The timer of a request that waits asks for a server again.
  pub server_retry_cb-IsWhole :
      (i : ℕ) (w : Session) → IsWhole w → IsWhole (server_retry_cb g world i w)
  unfolding server_retry_cb
  server_retry_cb-IsWhole i w h = elim (Option-cases (take_waiting i w.waiting)) [
    | inl e ↦ rw (e, server_retry_cb) h
    | inr (((address, cb), rest), e) ↦
        rw (e, server_retry_cb)
          (request_server-IsWhole g world address cb (record w { waiting = rest }) h.0
            (recount w.requests w.attached w.timers (parked w.waiting) w.curl_handles
              (parked ((address, cb) ∷ rest)) w.curl_handles
              (λ c. omega (arith, taken-count c i w.waiting (address, cb) rest e)) (λ c. refl) h.1))
  ]
