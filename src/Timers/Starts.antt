-- ===== src/Timers/Starts.antt =====
-- Starting and sending requests again keeps the timers right.
use irssi_robustirc.Completion.{message_id, World, resend, run_callback, settle, request_server}
use irssi_robustirc.Base.{
  ℕ, suc, ◌≡◌, refl, Bool, true, false, Option, some, arith, inl, inr, Bool-cases,
}
use irssi_robustirc.Base.Text.{Str}
use irssi_robustirc.Glib.{Glib}
use irssi_robustirc.Network.{Outcome, unresolved, call, later, dropped, crash}
use irssi_robustirc.Session.{
  Request, Callback, connect_target, get_messages, retry_request, send_target, Session,
  is_getmessages, start_get_messages, start_connect, start_send,
}
use irssi_robustirc.Timers.{
  HasTimers, IsUntimed, add_untimed, add_timer, change_untimed, fresh-IsUntimed, skip_handle,
}

start_connect-HasTimers :
    (memory : Bool) (target : Str) (w : Session)
    → HasTimers w
    → HasTimers (start_connect memory target w)
unfolding start_connect
start_connect-HasTimers true target w h = add_untimed w.requests w.timers w.next_curl w.next_tag _ h
start_connect-HasTimers false target w h = h

start_send-HasTimers :
    (memory : Bool) (id : ℕ) (buffer target : Str) (w : Session)
    → HasTimers w
    → HasTimers (start_send memory id buffer target w)
unfolding start_send
start_send-HasTimers true id buffer target w h =
    add_untimed w.requests w.timers w.next_curl w.next_tag _ h
start_send-HasTimers false id buffer target w h = h

start_get_messages-HasTimers :
    (memory : Bool) (target : Str) (w : Session)
    → HasTimers w
    → HasTimers (start_get_messages memory target w)
unfolding start_get_messages
start_get_messages-HasTimers true target w h =
    add_timer w.requests w.timers (suc w.next_curl) w.next_tag w.next_curl _ (omega arith)
      (fresh-IsUntimed w.requests w.timers w.next_curl w.next_tag h) refl refl
      (skip_handle w.requests w.timers w.next_curl w.next_tag h)
start_get_messages-HasTimers false target w h = h

resend-HasTimers :
    (curl : ℕ) (target : Str) (r : Request) (w : Session)
    → w.requests curl ≡ some r
    → IsUntimed w.timers curl
    → HasTimers w
    → HasTimers (resend curl target r w)
unfolding resend
resend-HasTimers curl target r w e untimed h = elim (Bool-cases (is_getmessages r.kind)) [
  | inl kind ↦ rw kind (
      add_timer w.requests w.timers w.next_curl w.next_tag curl _ (h.new_handle curl r e) untimed
        kind refl h)
  | inr kind ↦ rw kind (
      change_untimed w.requests w.timers w.next_curl w.next_tag curl _ (h.new_handle curl r e)
        untimed h)
]

-- The handle of a request that is to be sent again is not freed and has no timer.
abbrev pub IsReady : (ℕ → Option Request) → (ℕ → Option ℕ) → Callback → Type 0
IsReady requests timers (retry_request curl) =
    (r : Request) × (requests curl ≡ some r) × IsUntimed timers curl
IsReady requests timers _ = Unit {0}

settle-HasTimers :
    (memory : Bool) (id_of : Str → ℕ) (address : Str) (cb : Callback) (o : Outcome) (w : Session)
    → IsReady w.requests w.timers cb
    → HasTimers w
    → HasTimers (settle memory id_of address cb o w)
unfolding run_callback
settle-HasTimers memory id_of address connect_target (call t) w ready h =
    start_connect-HasTimers memory t w h
settle-HasTimers memory id_of address get_messages (call t) w ready h =
    start_get_messages-HasTimers memory t w h
settle-HasTimers memory id_of address (send_target b) (call t) w ready h =
    start_send-HasTimers memory (id_of b) b t w h
settle-HasTimers memory id_of address (retry_request c) (call t) w (r, e, untimed) h =
    rw (e, run_callback) (resend-HasTimers c t r w e untimed h)
settle-HasTimers memory id_of address cb unresolved w ready h = h
settle-HasTimers memory id_of address cb (later d) w ready h = h
settle-HasTimers memory id_of address cb dropped w ready h = h
settle-HasTimers memory id_of address cb crash w ready h = h

-- Asking for a server, and what its callback does.
pub request_server-HasTimers :
    (g : Glib) (world : World) (address : Str) (cb : Callback) (w : Session)
    → IsReady w.requests w.timers cb
    → HasTimers w
    → HasTimers (request_server g world address cb w)
unfolding request_server
request_server-HasTimers g world address cb w ready h =
    settle-HasTimers world.memory (message_id g world) address cb _ (record w { networks = _ })
      ready h
