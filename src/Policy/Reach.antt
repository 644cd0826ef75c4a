-- ===== src/Policy/Reach.antt =====
-- The rules hold in every session that the events lead to.
use irssi_robustirc.Session.{Session, connect_target, send_target, Connrec}
use irssi_robustirc.Base.{refl, false, none, []}
use irssi_robustirc.Teardown.{new_session, connect, resume_resolved, send, write_only, destroy}
use irssi_robustirc.Base.Text.{Str}
use irssi_robustirc.Glib.{Glib}
use irssi_robustirc.Network.{Resolution, resolved, asked, abandoned, reconnects, network_resolve}
use irssi_robustirc.Body.{write_func}
use irssi_robustirc.Completion.{World}
use irssi_robustirc.Receiving.{receive_body}
use irssi_robustirc.Timers.{HasTimers}
use irssi_robustirc.Ownership.Reach.{reachable-IsWhole}
use irssi_robustirc.Policy.Receives.{gm_write_func-Follows}
use irssi_robustirc.Policy.Ends.{
  get_messages_timeout-Follows, write_only_loop-Follows, destroy-Follows,
}
use irssi_robustirc.Runs.{
  Step, resolves, sends, retries, ends, receives, collects, times_out, leaves, ends_all, outside,
  Reach, connects, later,
}
use irssi_robustirc.Policy.{Policy, Follows, Basics}
use irssi_robustirc.Policy.Events.{
  change-Follows, request_server-Follows, server_retry_cb-Follows, check_message-Follows,
}

-- What the session of a new connection knows
abbrev pub first_basics : Connrec → Basics
first_basics c = record {
  sessionid = none;
  headers = [];
  tls_verify = c.tls_verify;
  family = c.family;
}

module _ (p : Policy) where
  module _ (g : Glib) where
    resume-Follows :
        (world : World) (resolution : Resolution) (address : Str) (w : Session)
        → Follows p w
        → Follows p (resume_resolved g world resolution address w)
    resume-Follows world resolved address w h =
        request_server-Follows p g world address connect_target w tt h
    resume-Follows world asked address w h = h
    resume-Follows world abandoned address w h = h
    resume-Follows world reconnects address w h = h

    Step-Follows : {w u : Session} → Step g w u → HasTimers w → Follows p w → Follows p u
    unfolding send write_only destroy receive_body
    Step-Follows {w} (resolves world address) timed h =
        request_server-Follows p g world address connect_target w tt h
    Step-Follows {w} (sends world address buffer) timed h =
        request_server-Follows p g world address (send_target _) w tt h
    Step-Follows {w} (retries world i) timed h = server_retry_cb-Follows p g world i w h
    Step-Follows {w} (ends world multi d r on e server) timed h =
        check_message-Follows p g world multi d w h
    Step-Follows {w} (receives y chunk size nmemb multi curl r on e kind) timed h =
        gm_write_func-Follows p g y chunk size nmemb curl w h
    Step-Follows {w} (collects junk memory chunk size nmemb curl r e kind) timed h =
        rw (e, receive_body)
          (change-Follows p curl r
            (record r { body = (write_func junk memory chunk size nmemb r.body).0 }) w e refl h)
    Step-Follows {w} (times_out world tag) timed h =
        get_messages_timeout-Follows p g world tag w timed h
    Step-Follows {w} leaves timed h = write_only_loop-Follows p w.curl_handles w h
    Step-Follows {w} ends_all timed h = destroy-Follows p w h
    Step-Follows {w} (outside networks address) timed h = h

module _ (g : Glib) (policy : Connrec → Policy)
    (starts_well : (c : Connrec) → (policy c).session (first_basics c)) where
  -- The rules for the connection record that robustsession_connect was given hold in every session
  -- that the events lead to.
  pub reachable-Follows : {w : Session} → Reach g w → (c : Connrec) × Follows (policy c) w
  unfolding connect
  reachable-Follows (connects world c networks) =
      let (networks', resolution) = network_resolve g false c.address networks in
      (
        c,
        resume-Follows (policy c) g world resolution c.address (new_session c networks')
            (starts_well c, (λ k r e. cc), tt),
      )
  reachable-Follows (later run step) =
      let (c, h) = reachable-Follows run in
      (c, Step-Follows (policy c) g step (reachable-IsWhole run).0 h)
