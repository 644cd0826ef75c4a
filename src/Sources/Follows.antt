-- ===== src/Sources/Follows.antt =====
-- Over any calls of libcurl, the sources are those that it asked for last.
use irssi_robustirc.Base.{
  Option-cases, ℕ_discrete, false, true, ℕ, zero, suc, ◌≡◌, refl, Option, none, some, List, [], ◌∷◌,
  inl, inr,
}
use irssi_robustirc.Sources.{
  take_events, take_event, no_sources, empty, Event, insert, poll_none, poll_in, poll_out,
  poll_inout, poll_remove, Condition, Sources, watch, arm, Call, socket, timeout, call_back,
  call_backs, timeout_cb, runs, fires,
}
use irssi_robustirc.Base.Int.{pos, negsuc}
use irssi_robustirc.Sources.Wired.{
  Wants, want, wants, IsWatched, watch-IsWatched, unwatch-IsWatched,
}
use irssi_robustirc.Sources.Armed.{
  IsArmed, arm-IsArmed, disarm-IsArmed, later-IsArmed, later-IsWatched, fire-IsArmed, end-IsArmed,
}

-- The sources are those that are wanted, beside the timer that fires.
abbrev pub IsWired : Option ℕ → Sources → Wants → Type 0
IsWired firing w v =
    IsWatched w.watches w.assigned w.next_tag v.sockets
    × IsArmed w.timers w.timerdata w.next_tag firing v.timer

watch-IsWired :
    (firing : Option ℕ) (s : ℕ) (c : Condition) (w : Sources) (v : Wants)
    → IsWired firing w v
    → IsWired firing (watch s c w) (record v { sockets = insert ℕ_discrete s c v.sockets })
unfolding watch
watch-IsWired firing s c w v (watched, armed) = (
  watch-IsWatched w.watches w.assigned w.next_tag v.sockets s c watched,
  later-IsArmed w.timers w.timerdata w.next_tag firing v.timer armed,
)

arm-IsWired :
    (firing : Option ℕ) (ms : ℕ) (w : Sources) (v : Wants)
    → IsWired firing w v
    → IsWired firing (arm ms w) (record v { timer = some ms })
unfolding arm
arm-IsWired firing ms w v (watched, armed) = (
  later-IsWatched w.watches w.assigned w.next_tag v.sockets watched,
  arm-IsArmed w.timers w.timerdata w.next_tag firing v.timer ms armed,
)

call_back-IsWired :
    (firing : Option ℕ) (call : Call) (w : Sources) (v : Wants)
    → IsWired firing w v
    → IsWired firing (call_back call w) (want call v)
unfolding call_back
call_back-IsWired firing (socket poll_none s) w v h = h
call_back-IsWired firing (socket poll_remove s) w v (watched, armed) =
    (unwatch-IsWatched w.watches w.assigned w.next_tag v.sockets s watched, armed)
call_back-IsWired firing (socket poll_in s) w v h = watch-IsWired firing s (true, false) w v h
call_back-IsWired firing (socket poll_out s) w v h = watch-IsWired firing s (false, true) w v h
call_back-IsWired firing (socket poll_inout s) w v h = watch-IsWired firing s (true, true) w v h
call_back-IsWired firing (timeout (negsuc zero)) w v (watched, armed) =
    (watched, disarm-IsArmed w.timers w.timerdata w.next_tag firing v.timer armed)
call_back-IsWired firing (timeout (negsuc (suc n))) w v h = arm-IsWired firing _ w v h
call_back-IsWired firing (timeout (pos n)) w v h = arm-IsWired firing _ w v h

call_backs-IsWired :
    (firing : Option ℕ) (calls : List Call) (w : Sources) (v : Wants)
    → IsWired firing w v
    → IsWired firing (call_backs calls w) (wants calls v)
unfolding call_backs
call_backs-IsWired firing [] w v h = h
call_backs-IsWired firing (c ∷ cs) w v h =
    call_backs-IsWired firing cs (call_back c w) (want c v) (call_back-IsWired firing c w v h)

timeout_cb-IsWired :
    (id ms : ℕ) (calls : List Call) (w : Sources) (v : Wants)
    → w.timerdata ≡ some id
    → w.timers id ≡ some ms
    → IsWired none w v
    → IsWired none (timeout_cb id calls w) (wants calls (record v { timer = none }))
unfolding timeout_cb
timeout_cb-IsWired id ms calls w v named running (watched, armed) =
    let fired : IsArmed w.timers none w.next_tag (some id) none =
      fire-IsArmed w.timers w.next_tag id v.timer (armed.small id ms running) (rw named at armed) in
    let (watched', armed') =
      call_backs-IsWired (some id) calls (record w { timerdata = none }) (record v { timer = none })
        (watched, fired) in
    let ran = call_backs calls (record w { timerdata = none }) in
    (
      watched',
      end-IsArmed ran.timers ran.timerdata ran.next_tag id
          (wants calls (record v { timer = none })).timer armed',
    )

-- A timer that has fired is no longer asked for.
unfoldable pub want_event : Event → Wants → Wants
want_event (runs calls) v = wants calls v
want_event (fires calls) v = elim v.timer [
  | none ↦ v
  | some ms ↦ wants calls (record v { timer = none })
]

unfoldable pub want_events : List Event → Wants → Wants
unfolding want_event
want_events [] v = v
want_events (e ∷ es) v = want_events es (want_event e v)

take_event-IsWired :
    (e : Event) (w : Sources) (v : Wants)
    → IsWired none w v
    → IsWired none (take_event e w) (want_event e v)
unfolding take_event want_event
take_event-IsWired (runs calls) w v h = call_backs-IsWired none calls w v h
take_event-IsWired (fires calls) w v (watched, armed) = elim (Option-cases v.timer) [
  | inl unwanted ↦
      rw (unwanted, want_event) (rw (armed.unset unwanted, take_event) (watched, armed))
  | inr (ms, wanted) ↦
      let (id, named, running) = armed.set ms wanted in
      rw (wanted, want_event)
        (rw (named, take_event) (timeout_cb-IsWired id ms calls w v named running (watched, armed)))
]

take_events-IsWired :
    (es : List Event) (w : Sources) (v : Wants)
    → IsWired none w v
    → IsWired none (take_events es w) (want_events es v)
unfolding take_events want_events
take_events-IsWired [] w v h = h
take_events-IsWired (e ∷ es) w v h =
    take_events-IsWired es (take_event e w) (want_event e v) (take_event-IsWired e w v h)

abbrev pub no_wants : Wants
no_wants = record { sockets = empty; timer = none }

start-IsWired : IsWired none no_sources no_wants
start-IsWired = (
  record { on = λ s c e. cc; off = λ s e. refl; only = λ id s c e. cc; small = λ id s c e. cc },
  record {
    set = λ ms e. cc;
    unset = λ e. refl;
    only = λ id ms e. cc;
    small = λ id ms e. cc;
    fired = λ id e. cc;
  },
)

-- Over any events of a multi handle: each socket has one watch, with the condition that libcurl
-- asked for last, exactly while it asks for one; and one timer runs, of the time that it asked for
-- last (as a guint), exactly while it asks for one, where a timer that has fired counts as no
-- longer asked for.
pub sources_follow :
    (es : List Event) → IsWired none (take_events es no_sources) (want_events es no_wants)
sources_follow es = take_events-IsWired es no_sources no_wants start-IsWired
