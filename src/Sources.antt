-- ===== src/Sources.antt =====
-- src/core/robustsession/robustsession.c: the callbacks by which libcurl asks for watches on its
-- sockets and for a timer, of one multi handle, and the callback of that timer.
pub mod Wired
pub mod Armed
pub mod Follows
use irssi_robustirc.Base.{
  ℕ, zero, suc, ◌^◌, Bool, true, false, Option, none, some, List, [], ◌∷◌, ℕ_discrete,
  if◌then◌else◌,
}
use irssi_robustirc.Base.Int.{ℤ, pos, negsuc, to_word}
use irssi_robustirc.Base.Tables.{insert, remove, empty}

-- The `what` of a socket callback
pub data What : Type 0 where
  poll_none poll_in poll_out poll_inout poll_remove : What

-- Whether to watch for reading, and for writing
abbrev pub Condition : Type 0
Condition = Bool × Bool

-- Sources of glib by their tags, with what they are for; the tag that curl_multi_assign keeps for a
-- socket; and the one that CURLMOPT_TIMERDATA keeps.
pub record Sources : Type 0 where
  pub watches : ℕ → Option (ℕ × Condition)
  pub assigned : ℕ → Option ℕ
  pub timers : ℕ → Option ℕ
  pub timerdata : Option ℕ
  pub next_tag : ℕ

-- g_source_remove of the watch with the tag, if there is one
abbrev pub drop_source {ℓ} : {V : Type ℓ} → Option ℕ → (ℕ → Option V) → ℕ → Option V
drop_source none sources = sources
drop_source (some id) sources = remove ℕ_discrete id sources

-- The end of _socket_callback: a new watch in place of the old one.
unfoldable pub watch : ℕ → Condition → Sources → Sources
watch s condition w = record w {
  next_tag = suc w.next_tag;
  watches = insert ℕ_discrete w.next_tag (s, condition) (drop_source (w.assigned s) w.watches);
  assigned = insert ℕ_discrete s w.next_tag w.assigned;
}

-- The branch for CURL_POLL_REMOVE
unfoldable pub unwatch : ℕ → Sources → Sources
unwatch s w = record w {
  watches = drop_source (w.assigned s) w.watches;
  assigned = remove ℕ_discrete s w.assigned;
}

-- _socket_callback
unfoldable pub socket_callback : What → ℕ → Sources → Sources
unfolding watch unwatch
socket_callback poll_none s w = w
socket_callback poll_remove s w = unwatch s w
socket_callback poll_in s w = watch s (true, false) w
socket_callback poll_out s w = watch s (false, true) w
socket_callback poll_inout s w = watch s (true, true) w

-- A timer of so many milliseconds in place of the old one.
unfoldable pub arm : ℕ → Sources → Sources
arm ms w = record w {
  next_tag = suc w.next_tag;
  timers = insert ℕ_discrete w.next_tag ms (drop_source w.timerdata w.timers);
  timerdata = some w.next_tag;
}

-- The branch of start_timeout for -1
unfoldable pub disarm : Sources → Sources
disarm w = record w { timers = drop_source w.timerdata w.timers; timerdata = none }

-- start_timeout
unfoldable pub start_timeout : ℤ → Sources → Sources
unfolding arm disarm
start_timeout (negsuc zero) w = disarm w
start_timeout (negsuc (suc n)) w = arm (to_word (2 ^ 32) (negsuc (suc n))) w
start_timeout (pos n) w = arm (to_word (2 ^ 32) (pos n)) w

-- What libcurl calls while it runs
pub data Call : Type 0 where
  socket : What → ℕ → Call
  timeout : ℤ → Call

unfoldable pub call_back : Call → Sources → Sources
unfolding socket_callback start_timeout
call_back (socket what s) w = socket_callback what s w
call_back (timeout ms) w = start_timeout ms w

unfoldable pub call_backs : List Call → Sources → Sources
unfolding call_back
call_backs [] w = w
call_backs (c ∷ cs) w = call_backs cs (call_back c w)

-- timeout_cb of the timer with the tag: it is forgotten, libcurl runs and calls back, and the
-- source that has fired is removed.
unfoldable pub timeout_cb : ℕ → List Call → Sources → Sources
unfolding call_backs
timeout_cb id calls w =
    let ran = call_backs calls (record w { timerdata = none }) in
    record ran { timers = remove ℕ_discrete id ran.timers }

-- What happens to a multi handle: libcurl runs and calls back, or the timer fires, if there is one.
pub data Event : Type 0 where
  runs fires : List Call → Event

unfoldable pub take_event : Event → Sources → Sources
unfolding call_backs timeout_cb
take_event (runs calls) w = call_backs calls w
take_event (fires calls) w = elim w.timerdata [ none ↦ w | some id ↦ timeout_cb id calls w ]

unfoldable pub take_events : List Event → Sources → Sources
unfolding take_event
take_events [] w = w
take_events (e ∷ es) w = take_events es (take_event e w)

-- The start, after robustsession_init
abbrev pub no_sources : Sources
no_sources = record {
  watches = empty;
  assigned = empty;
  timers = empty;
  timerdata = none;
  next_tag = 1;
}
