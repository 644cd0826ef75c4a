-- ===== src/Tests/Watches.antt =====
-- The sockets and the timer of a multi handle at concrete events.
use irssi_robustirc.Base.{ℕ_discrete, ◌≡◌, refl, true, none, some, List, [], ◌∷◌}
use irssi_robustirc.Base.Int.{pos, negsuc}
use irssi_robustirc.Sources.{
  poll_in, poll_inout, socket, timeout, Event, runs, fires, take_events, no_sources,
}
use irssi_robustirc.Sources.Follows.{IsWired, want_events, no_wants, sources_follow}

-- libcurl asks for a socket and a timer, widens the watch when the timer fires, and then needs no
-- timer.
abbrev events : List Event
events =
    runs (socket poll_in 5 ∷ timeout (pos 1000) ∷ [])
    ∷ fires (timeout (pos 20) ∷ socket poll_inout 5 ∷ [])
    ∷ runs (timeout (negsuc 0) ∷ [])
    ∷ []

sources_follow_example : IsWired none (take_events events no_sources) (want_events events no_wants)
sources_follow_example = sources_follow events

widened : (take_events events no_sources).watches 4 ≡ some (5, (true, true))
unfolding take_events ℕ_discrete
widened = refl

first_gone : (take_events events no_sources).watches 1 ≡ none
unfolding take_events ℕ_discrete
first_gone = refl

timer_gone : (take_events events no_sources).timerdata ≡ none
unfolding take_events ℕ_discrete
timer_gone = refl
