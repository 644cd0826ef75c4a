-- ===== src/Ownership/Starts.antt =====
-- Starting and sending requests again keeps the owners of the handles right.
use irssi_robustirc.Base.Counts.{count, count-append, hit_self}
use irssi_robustirc.Completion.{message_id, World, resend, run_callback, settle, request_server}
use irssi_robustirc.Ownership.{
  insert, handle_of, IsOwned, HasOwners, IsWhole, parked, join, start_timer, recount,
}
use irssi_robustirc.Base.{
  ℕ, ◌+◌, ◌<◌, ◌≡◌, refl, Bool, true, false, arith, ℕ_discrete, inl, inr, Bool-cases, List, [], ◌∷◌,
  ◌++◌,
}
use irssi_robustirc.Base.Text.{Str}
use irssi_robustirc.Glib.{Glib}
use irssi_robustirc.Network.{Outcome, unresolved, call, later, dropped, crash}
use irssi_robustirc.Session.{
  Request, Multi, Callback, connect_target, get_messages, retry_request, send_target, Session,
  is_getmessages, start_get_messages, start_connect, start_send,
}
use irssi_robustirc.Timers.{HasTimers}
use irssi_robustirc.Timers.Starts.{IsReady, request_server-HasTimers}

-- The next handle is in no list.
new_handle-count :
    (w : Session) (waits : List ℕ)
    → HasTimers w
    → IsOwned w.requests w.attached w.timers waits w.curl_handles
    → count w.next_curl waits + count w.next_curl w.curl_handles ≡ 0
new_handle-count w waits t h =
    elim (ℕ_discrete (count w.next_curl waits + count w.next_curl w.curl_handles) 0) [
      | yes e ↦ e
      | no some_place ↦
          let (r, e) = h.live w.next_curl (omega (arith, some_place)) in
          omega (arith, t.new_handle w.next_curl r e)
    ]

count-last : (c : ℕ) (l : List ℕ) → 0 < count c (l ++ c ∷ [])
count-last c l = omega (arith, count-append c l (c ∷ []), hit_self c)

start_connect-HasOwners :
    (memory : Bool) (target : Str) (w : Session)
    → HasTimers w
    → HasOwners w
    → HasOwners (start_connect memory target w)
unfolding start_connect
start_connect-HasOwners true target w t h =
    join w.requests w.attached w.timers (parked w.waiting) w.curl_handles w.next_curl _ _
      (new_handle-count w (parked w.waiting) t h) h
start_connect-HasOwners false target w t h = h

start_send-HasOwners :
    (memory : Bool) (id : ℕ) (buffer target : Str) (w : Session)
    → HasTimers w
    → HasOwners w
    → HasOwners (start_send memory id buffer target w)
unfolding start_send
start_send-HasOwners true id buffer target w t h =
    join w.requests w.attached w.timers (parked w.waiting) w.curl_handles w.next_curl _ _
      (new_handle-count w (parked w.waiting) t h) h
start_send-HasOwners false id buffer target w t h = h

start_get_messages-HasOwners :
    (memory : Bool) (target : Str) (w : Session)
    → HasTimers w
    → HasOwners w
    → HasOwners (start_get_messages memory target w)
unfolding start_get_messages
start_get_messages-HasOwners true target w t h =
    start_timer _ _ w.timers (parked w.waiting) (w.curl_handles ++ w.next_curl ∷ []) w.next_tag
      w.next_curl (count-last w.next_curl w.curl_handles)
      (join w.requests w.attached w.timers (parked w.waiting) w.curl_handles w.next_curl _ _
        (new_handle-count w (parked w.waiting) t h) h)
start_get_messages-HasOwners false target w t h = h

-- The handle of a request that waited is listed again.
return_handle :
    (curl : ℕ) (r : Request) (multi : Multi) (w : Session)
    → IsOwned w.requests w.attached w.timers (curl ∷ parked w.waiting) w.curl_handles
    → IsOwned
        (insert ℕ_discrete curl r w.requests)
        (insert ℕ_discrete curl multi w.attached)
        w.timers
        (parked w.waiting)
        (w.curl_handles ++ curl ∷ [])
return_handle curl r multi w h =
    join w.requests w.attached w.timers (parked w.waiting) w.curl_handles curl r multi
      (omega (arith, h.once curl, hit_self curl))
      (recount w.requests w.attached w.timers (curl ∷ parked w.waiting) w.curl_handles
        (parked w.waiting) w.curl_handles (λ c. omega arith) (λ c. refl) h)

resend-HasOwners :
    (curl : ℕ) (target : Str) (r : Request) (w : Session)
    → IsOwned w.requests w.attached w.timers (curl ∷ parked w.waiting) w.curl_handles
    → HasOwners (resend curl target r w)
unfolding resend
resend-HasOwners curl target r w h = elim (Bool-cases (is_getmessages r.kind)) [
  | inl kind ↦ rw kind (
      start_timer _ _ w.timers (parked w.waiting) (w.curl_handles ++ curl ∷ []) w.next_tag curl
        (count-last curl w.curl_handles) (return_handle curl _ _ w h))
  | inr kind ↦ rw kind (return_handle curl _ _ w h)
]

-- The owners, if the callback is counted among the requests that wait.
abbrev pub IsAwaited : Str → Callback → Session → Type 0
IsAwaited address cb w =
    IsOwned w.requests w.attached w.timers (parked ((address, cb) ∷ w.waiting)) w.curl_handles

count-parked_snoc :
    (c : ℕ) (address : Str) (cb : Callback) (ws : List (Str × Callback))
    → count c (parked (ws ++ (address, cb) ∷ [])) ≡ count c (parked ((address, cb) ∷ ws))
count-parked_snoc c address cb [] = refl
count-parked_snoc c address cb ((a, x) ∷ ws) = omega (
  arith,
  count-parked_snoc c address cb ws,
  count-append c (handle_of cb) (parked ws),
  count-append c (handle_of x) (parked (ws ++ (address, cb) ∷ [])),
  count-append c (handle_of cb) (handle_of x ++ parked ws),
  count-append c (handle_of x) (parked ws),
)

-- A callback that is not made is forgotten.
forget : (address : Str) (cb : Callback) (w : Session) → IsAwaited address cb w → HasOwners w
forget address cb w h =
    recount w.requests w.attached w.timers (parked ((address, cb) ∷ w.waiting)) w.curl_handles
      (parked w.waiting) w.curl_handles
      (λ c. omega (arith, count-append c (handle_of cb) (parked w.waiting))) (λ c. refl) h

settle-HasOwners :
    (memory : Bool) (id_of : Str → ℕ) (address : Str) (cb : Callback) (o : Outcome) (w : Session)
    → HasTimers w
    → IsAwaited address cb w
    → HasOwners (settle memory id_of address cb o w)
unfolding run_callback
settle-HasOwners memory id_of address connect_target (call target) w t h =
    start_connect-HasOwners memory target w t h
settle-HasOwners memory id_of address get_messages (call target) w t h =
    start_get_messages-HasOwners memory target w t h
settle-HasOwners memory id_of address (send_target b) (call target) w t h =
    start_send-HasOwners memory (id_of b) b target w t h
settle-HasOwners memory id_of address (retry_request curl) (call target) w t h =
    let (r, e) = h.live curl (omega (arith, hit_self curl)) in
    rw (e, run_callback) (resend-HasOwners curl target r w h)
settle-HasOwners memory id_of address cb (later d) w t h =
    recount w.requests w.attached w.timers (parked ((address, cb) ∷ w.waiting)) w.curl_handles
      (parked (w.waiting ++ (address, cb) ∷ [])) w.curl_handles
      (λ c. omega (arith, count-parked_snoc c address cb w.waiting)) (λ c. refl) h
settle-HasOwners memory id_of address cb unresolved w t h = forget address cb w h
settle-HasOwners memory id_of address cb dropped w t h = forget address cb w h
settle-HasOwners memory id_of address cb crash w t h = forget address cb w h

-- A handle that waits has no timer and is live.
IsAwaited-IsReady :
    (address : Str) (cb : Callback) (w : Session)
    → IsAwaited address cb w
    → IsReady w.requests w.timers cb
IsAwaited-IsReady address connect_target w h = tt
IsAwaited-IsReady address get_messages w h = tt
IsAwaited-IsReady address (send_target b) w h = tt
IsAwaited-IsReady address (retry_request curl) w h =
    let (r, e) = h.live curl (omega (arith, hit_self curl)) in
    (r, e, λ tag f. omega (arith, h.on_timer tag curl f, h.once curl, hit_self curl))

-- Asking for a server, and what its callback does.
pub request_server-IsWhole :
    (g : Glib) (world : World) (address : Str) (cb : Callback) (w : Session)
    → HasTimers w
    → IsAwaited address cb w
    → IsWhole (request_server g world address cb w)
unfolding request_server
request_server-IsWhole g world address cb w t h = (
  request_server-HasTimers g world address cb w (IsAwaited-IsReady address cb w h) t,
  settle-HasOwners world.memory (message_id g world) address cb _ (record w { networks = _ }) t h,
)
