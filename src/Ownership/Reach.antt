-- ===== src/Ownership/Reach.antt =====
-- What holds in every session that the events lead to.
use irssi_robustirc.Base.{false, arith}
use irssi_robustirc.Base.Text.{Str}
use irssi_robustirc.Glib.{Glib}
use irssi_robustirc.Network.{
  Networks, Resolution, resolved, asked, abandoned, reconnects, network_resolve,
}
use irssi_robustirc.Session.{Connrec, Session, connect_target, send_target}
use irssi_robustirc.Completion.{World}
use irssi_robustirc.Teardown.{new_session, connect, resume_resolved, send}
use irssi_robustirc.Ownership.{IsWhole}
use irssi_robustirc.Ownership.Starts.{request_server-IsWhole}
use irssi_robustirc.Ownership.Events.{check_message-IsWhole}
use irssi_robustirc.Ownership.Ends.{get_messages_timeout-IsWhole, server_retry_cb-IsWhole}
use irssi_robustirc.Ownership.Loops.{write_only-IsWhole, destroy-IsWhole}
use irssi_robustirc.Receiving.Keeps.{gm_write_func-IsWhole, receive_body-IsWhole}
use irssi_robustirc.Runs.{
  Step, resolves, sends, retries, ends, receives, collects, times_out, leaves, ends_all, outside,
  Reach, connects, later,
}

new_session-IsWhole :
    (connrec : Connrec) (networks : Networks) → IsWhole (new_session connrec networks)
new_session-IsWhole connrec networks = (
  record { live = λ tag curl e. cc; new_tag = λ tag curl e. cc; new_handle = λ curl r e. cc },
  record {
    once = λ c. omega arith;
    live = λ c some_place. let none_there : ⊥ = omega (arith, some_place) in absurd none_there;
    on_multi = λ c m e. cc;
    on_timer = λ tag c e. cc;
  },
)

Step-IsWhole : {g : Glib} {w u : Session} → Step g w u → IsWhole w → IsWhole u
unfolding send
Step-IsWhole {g} {w} (resolves world address) h =
    request_server-IsWhole g world address connect_target w h.0 h.1
Step-IsWhole {g} {w} (sends world address buffer) h =
    request_server-IsWhole g world address (send_target _) w h.0 h.1
Step-IsWhole {g} {w} (retries world i) h = server_retry_cb-IsWhole g world i w h
Step-IsWhole {g} {w} (ends world multi d r on e server) h =
    check_message-IsWhole g world multi d r w on e server h
Step-IsWhole {g} {w} (receives y chunk size nmemb multi curl r on e kind) h =
    gm_write_func-IsWhole g y chunk size nmemb multi curl r w on e kind h
Step-IsWhole {g} {w} (collects junk memory chunk size nmemb curl r e kind) h =
    receive_body-IsWhole junk memory chunk size nmemb curl r w e h
Step-IsWhole {g} {w} (times_out world tag) h = get_messages_timeout-IsWhole g world tag w h
Step-IsWhole {g} {w} leaves h = write_only-IsWhole w h
Step-IsWhole {g} {w} ends_all h = destroy-IsWhole w h
Step-IsWhole {g} {w} (outside networks address) h = h

resume-IsWhole :
    (g : Glib) (world : World) (resolution : Resolution) (address : Str) (w : Session)
    → IsWhole w
    → IsWhole (resume_resolved g world resolution address w)
resume-IsWhole g world resolved address w h =
    request_server-IsWhole g world address connect_target w h.0 h.1
resume-IsWhole g world asked address w h = h
resume-IsWhole g world abandoned address w h = h
resume-IsWhole g world reconnects address w h = h

-- In every session that robustsession_connect and any order of events lead to, if GetMessages
-- requests end while their server has an address: a handle is owned at most once, by the
-- session's list or by a request that waits; an owned handle has a request that is not freed; the
-- handles of libcurl and of the running timers are on the list; a running timer is for a
-- GetMessages request, and is the one that it names.
pub reachable-IsWhole : {g : Glib} {w : Session} → Reach g w → IsWhole w
unfolding connect
reachable-IsWhole {g} (connects world connrec networks) =
    let (networks', resolution) = network_resolve g false connrec.address networks in
    resume-IsWhole g world resolution connrec.address (new_session connrec networks')
      (new_session-IsWhole connrec networks')
reachable-IsWhole (later run step) = Step-IsWhole step (reachable-IsWhole run)
