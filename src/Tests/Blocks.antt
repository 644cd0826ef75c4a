-- ===== src/Tests/Blocks.antt =====
-- A session that looks its network up, and has a request that waits, when it is cancelled.
use irssi_robustirc.Base.{◌<◌, ◌≡◌, true, false, none, arith}
use irssi_robustirc.Base.Counts.{count}
use irssi_robustirc.Base.Text.{codes}
use irssi_robustirc.Session.{connect_target}
use irssi_robustirc.Pending.{
  Pending, nothing_pending, start_lookup, start_retry, srv_resolved, cancel,
}
use irssi_robustirc.Pending.Reach.{Life, begins, looks_up, waits, cancel_frees, late_lookup_dangles}

abbrev busy : Pending
busy = start_retry (codes "a.net") connect_target (start_lookup (codes "b.net") nothing_pending)

busy-Life : Life busy
busy-Life = waits (codes "a.net") connect_target (looks_up (codes "b.net") begins)

cancel_frees_example :
    ((cancel busy).crashed ≡ false)
    × ((cancel busy).queries 0 ≡ none)
    × ((cancel busy).retries 0 ≡ none)
    × ((cancel busy).sources 1 ≡ none)
cancel_frees_example = cancel_frees busy 0 1 busy-Life

busy_lookup : 0 < count 0 busy.lookups
unfolding start_retry start_lookup
busy_lookup = omega arith

late_lookup_dangles_example :
    (0 < count 0 (cancel busy).lookups) × ((srv_resolved 0 true none (cancel busy)).crashed ≡ true)
late_lookup_dangles_example = late_lookup_dangles busy 0 true none busy-Life busy_lookup
