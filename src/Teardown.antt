-- ===== src/Teardown.antt =====
-- src/core/robustsession/robustsession.c: how a session starts, sends and ends, and the timeout of
-- GetMessages; robustsession-network.c: the timer that asks for a server again.
use irssi_robustirc.Session.{
  Connrec, Request, curl_handle, curl_handle_gm, connect_target, get_messages, send_target, Session,
  is_getmessages, multi_remove, free_request, forget_handle, source_remove, stop_timer,
}
use irssi_robustirc.Base.{
  ℕ, true, false, Option, none, some, List, [], ◌∷◌, if◌then◌else◌, ℕ_discrete,
}
use irssi_robustirc.Base.Text.{Str, codes, c_string}
use irssi_robustirc.Base.Tables.{empty, insert}
use irssi_robustirc.Glib.{Glib}
use irssi_robustirc.Network.{Networks, Resolution, resolved, network_resolve, network_failed}
use irssi_robustirc.Completion.{World, crash_session, request_server}

-- The g_new0 of robustsession_connect
abbrev pub new_session : Connrec → Networks → Session
new_session connrec networks = record {
  sessionid = none;
  sessionauth = none;
  lastseen = codes "0.0";
  headers = [];
  curl_handles = [];
  cancelled = false;
  requests = empty;
  attached = empty;
  next_curl = 0;
  timers = empty;
  next_tag = 1;
  waiting = [];
  sent = [];
  networks = networks;
  incoming = [];
  address = some connrec.address;
  tls_verify = connrec.tls_verify;
  family = connrec.family;
  connected = false;
  connection_lost = false;
  crashed = false;
}

-- One handle of the loop of robustsession_destroy. The handle is taken off curl_handle, also if it
-- was added to curl_handle_gm.
unfoldable pub abort_request : ℕ → Request → Session → Session
unfolding multi_remove free_request stop_timer
abort_request curl r w = stop_timer r (free_request curl (multi_remove curl_handle curl w))

-- The loop of robustsession_write_only over the list of handles: the handles that stay on it.
unfoldable pub write_only_loop : List ℕ → Session → List ℕ × Session
unfolding abort_request
write_only_loop [] w = ([], w)
write_only_loop (curl ∷ rest) w = elim (w.requests curl) [
  | none ↦ (curl ∷ rest, crash_session w)
  | some r ↦
      let aborted = write_only_loop rest (abort_request curl r w) in
      let (kept, w') = write_only_loop rest (record w {
        requests = insert ℕ_discrete curl (record r { has_server = false }) w.requests;
      }) in
      if is_getmessages r.kind then aborted else (curl ∷ kept, w')
]

-- robustsession_write_only
unfoldable pub write_only : Session → Session
unfolding write_only_loop
write_only w =
    let (kept, w') = write_only_loop w.curl_handles w in record w' { curl_handles = kept }

-- The loop of robustsession_destroy
unfoldable pub destroy_loop : List ℕ → Session → Session
unfolding abort_request
destroy_loop [] w = w
destroy_loop (curl ∷ rest) w = elim (w.requests curl) [
  | none ↦ crash_session w
  | some r ↦ destroy_loop rest (abort_request curl r w)
]

-- robustsession_destroy. Cancelling ends the timers of the requests that wait for a server.
unfoldable pub destroy : Session → Session
unfolding destroy_loop
destroy w =
    let w' = destroy_loop w.curl_handles (record w { cancelled = true; waiting = [] }) in
    record w' { curl_handles = [] }

module _ (g : Glib) (world : World) where
  open world use {now, rand}

  -- robustsession_connect_resolved, if robustsession_network_resolve runs it at once
  abbrev pub resume_resolved : Resolution → Str → Session → Session
  resume_resolved resolved address w = request_server g world address connect_target w
  resume_resolved _ address w = w

  -- robustsession_connect, and robustsession_connect_resolved if the network is known already
  unfoldable pub connect : Connrec → Networks → Session × Resolution
  unfolding request_server
  connect connrec networks =
      let (networks', resolution) = network_resolve g false connrec.address networks in
      let w = new_session connrec networks' in
      (resume_resolved resolution connrec.address w, resolution)

  -- robustsession_send
  unfoldable pub send : Str → Str → Session → Session
  unfolding request_server
  send address buffer w = request_server g world address (send_target (c_string buffer)) w

  -- The failure that get_messages_timeout notes, if the server has an address.
  abbrev pub note_timeout : Request → Session → Session
  note_timeout r w = record w {
    networks = elim w.address [
      | none ↦ w.networks
      | some address ↦ network_failed g now rand address r.target w.networks
    ];
  }

  -- The new GetMessages that get_messages_timeout asks for, if the server has an address.
  abbrev pub start_again : Option Str → Session → Session
  start_again none w = w
  start_again (some address) w = request_server g world address get_messages w

  -- get_messages_timeout for a request; the source that runs it is removed when it returns.
  unfoldable pub time_out : ℕ → ℕ → Request → Session → Session
  unfolding multi_remove forget_handle free_request source_remove request_server
  time_out tag curl r w = start_again w.address (
      free_request curl (
        forget_handle curl
          (multi_remove curl_handle_gm curl (note_timeout r (source_remove tag w)))))

  -- The source with the tag runs get_messages_timeout on its handle.
  unfoldable pub get_messages_timeout : ℕ → Session → Session
  unfolding time_out
  get_messages_timeout tag w = elim (w.timers tag) [
    | none ↦ w
    | some curl ↦ elim (w.requests curl) [
      | none ↦ crash_session w
      | some r ↦ if r.has_server then time_out tag curl r w else crash_session w
    ]
  ]
