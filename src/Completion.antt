-- ===== src/Completion.antt =====
-- src/core/robustsession/robustsession.c: check_multi_info, which handles the requests that have
-- ended, with create_session_done, retry_request and the calls of robustsession_network_server. How a
-- request ended and what its JSON body holds are arguments.
use irssi_robustirc.Base.{
  ◌^◌, ◌%◌, ◌+◌, ℕ, zero, suc, Bool, true, false, not, ◌&&◌, ◌||◌, Option, none, some, List, [],
  ◌∷◌, ◌++◌, ltb, leb, ◌==◌, if◌then◌else◌, ℕ_discrete,
}
use irssi_robustirc.Base.Text.{c_string, Str, codes}
use irssi_robustirc.Session.{
  stop_timer, RequestType, rt_createsession, rt_deletesession, rt_postmessage, rt_getmessages,
  Request, Multi, curl_handle, curl_handle_gm, Callback, connect_target, get_messages,
  retry_request, send_target, Session, is_getmessages, add_handle, multi_remove, free_request,
  forget_handle, url_of, start_get_messages, start_connect, start_send,
}
use irssi_robustirc.Base.Tables.{insert}
use irssi_robustirc.Glib.{Glib}
use irssi_robustirc.Network.{
  Outcome, unresolved, call, later, dropped, crash, network_server, network_failed,
  network_succeeded,
}
use irssi_robustirc.Body.{no_body}

-- What yajl finds in the body of a CreateSession response: the strings under "Sessionid" and
-- "Sessionauth". A request that got no body has a null pointer there.
pub data SessionJson : Type 0 where
  null_body not_json : SessionJson
  object : Option Str → Option Str → SessionJson

-- What one call may find: the reading of the clock and of rand in robustsession_network_failed, the
-- readings in robustsession_network_server, whether curl_easy_init has memory, and what yajl_tree_parse
-- and yajl_tree_get make of the body of a response.
pub record World : Type 0 where
  pub now : ℕ
  pub clock : ℕ → ℕ
  pub rand : ℕ
  pub random : Bool
  pub memory : Bool
  pub tree : Str → SessionJson

-- A CURLMsg: its handle, whether it is CURLMSG_DONE, whether its result is CURLE_OK, the status.
pub record Done : Type 0 where
  pub curl : ℕ
  pub is_done : Bool
  pub curl_ok : Bool
  pub http_code : ℕ

-- `error` and `temporary_error` of check_multi_info
abbrev pub is_error : Done → Bool
is_error d = not d.curl_ok || not (d.http_code == 200)

abbrev pub is_temporary : Done → Bool
is_temporary d = not d.curl_ok || (leb 500 d.http_code && ltb d.http_code 600)

-- The multi handle of a request of this kind
abbrev pub multi_of : RequestType → Multi
multi_of kind = if is_getmessages kind then curl_handle_gm else curl_handle

-- The request that retry_request makes of the old one for a new target.
abbrev pub retried : Str → ℕ → Request → Request
retried target tag r = record r {
  target = target;
  body = no_body;
  parse = if is_getmessages r.kind then record r.parse { fed = [] } else r.parse;
  timeout_tag = if is_getmessages r.kind then tag else r.timeout_tag;
}

-- retry_request for a handle whose request is live
unfoldable pub resend : ℕ → Str → Request → Session → Session
unfolding add_handle url_of
resend curl target old w =
    let r = retried target w.next_tag old in
    let timed =
      if is_getmessages r.kind
      then record w {
        next_tag = suc w.next_tag;
        timers = insert ℕ_discrete w.next_tag curl w.timers;
      }
      else w in
    add_handle (multi_of r.kind) curl (record timed {
      requests = insert ℕ_discrete curl r w.requests;
      sent = w.sent ++ (curl, url_of r w.lastseen) ∷ [];
    })

abbrev pub crash_session : Session → Session
crash_session w = record w { crashed = true }

-- The callback of robustsession_network_server, at the server that it is given.
unfoldable pub run_callback : Bool → (Str → ℕ) → Callback → Str → Session → Session
unfolding start_connect start_get_messages start_send resend
run_callback memory id_of connect_target target w = start_connect memory target w
run_callback memory id_of get_messages target w = start_get_messages memory target w
run_callback memory id_of (send_target buffer) target w =
    start_send memory (id_of buffer) buffer target w
run_callback memory id_of (retry_request curl) target w = elim (w.requests curl) [
  | none ↦ crash_session w
  | some r ↦ resend curl target r w
]

abbrev pub settle : Bool → (Str → ℕ) → Str → Callback → Outcome → Session → Session
settle memory id_of address cb unresolved w = w
settle memory id_of address cb (call target) w = run_callback memory id_of cb target w
settle memory id_of address cb (later d) w = record w { waiting = w.waiting ++ (address, cb) ∷ [] }
settle memory id_of address cb dropped w = w
settle memory id_of address cb crash w = crash_session w

-- The i-th waiting request, and the others.
abbrev pub take_waiting :
    ℕ → List (Str × Callback) → Option ((Str × Callback) × List (Str × Callback))
take_waiting i [] = none
take_waiting zero (x ∷ xs) = some (x, xs)
take_waiting (suc i) (x ∷ xs) = elim (take_waiting i xs) [
  | none ↦ none
  | some (y, ys) ↦ some (y, x ∷ ys)
]

-- The label `cleanup`
unfoldable pub cleanup : Multi → ℕ → Session → Session
unfolding multi_remove forget_handle free_request
cleanup multi curl w = free_request curl (forget_handle curl (multi_remove multi curl w))

-- The branch for permanent errors; server_disconnect is irssi's.
abbrev pub disconnect : Session → Session
disconnect w = record w { connection_lost = true; connected = false }

-- create_session_done, where it returns true
abbrev pub session_created : Str → Str → Session → Session
session_created sessionid sessionauth w = record w {
  sessionid = some sessionid;
  sessionauth = some sessionauth;
  headers =
      w.headers
      ++ (codes "Accept: application/json"
          ∷ codes "Content-Type: application/json"
          ∷ (codes "X-Session-Auth: " ++ sessionauth)
          ∷ []);
  connected = true;
}

-- `!request->server || !request->server->connrec || !request->server->connrec->address`
abbrev pub address_of : Request → Session → Option Str
address_of r w = if r.has_server then w.address else none

module _ (g : Glib) (world : World) where
  open world use {now, clock, rand, random, memory, tree}

  -- `g_str_hash (buffer) + (guint)rand ()`
  abbrev pub message_id : Str → ℕ
  message_id buffer = (g.str_hash buffer + rand) % 2 ^ 32

  -- The arguments of yajl_tree_get
  abbrev pub session_json : Request → SessionJson
  session_json r = elim r.body.body [ none ↦ null_body | some bytes ↦ tree (c_string bytes) ]

  -- A call of robustsession_network_server and the callback that it makes.
  unfoldable pub request_server : Str → Callback → Session → Session
  unfolding run_callback
  request_server address cb w =
      let (networks, outcome) = network_server g clock w.cancelled address random w.networks in
      settle memory message_id address cb outcome (record w { networks = networks })

  -- robustsession_network_server_retry_cb for the i-th request that waits.
  unfoldable pub server_retry_cb : ℕ → Session → Session
  unfolding request_server
  server_retry_cb i w = elim (take_waiting i w.waiting) [
    | none ↦ w
    | some ((address, cb), rest) ↦ request_server address cb (record w { waiting = rest })
  ]

  -- `if (error || request->type == RT_GETMESSAGES) … failed … else … succeeded`
  unfoldable pub note_result : Str → Done → Request → Session → Session
  note_result address d r w = record w {
    networks =
        if is_error d || is_getmessages r.kind
        then network_failed g now rand address r.target w.networks
        else network_succeeded g address r.target w.networks;
  }

  -- The branch that retries.
  unfoldable pub retry : Multi → Str → ℕ → Request → Session → Session
  unfolding multi_remove forget_handle stop_timer request_server
  retry multi address curl r w =
      let out = forget_handle curl (multi_remove multi curl w) in
      request_server address (retry_request curl) (stop_timer r out)

  -- create_session_done, and the GetMessages that follows it
  unfoldable pub create_session_done : Str → SessionJson → Session → Session
  unfolding request_server
  create_session_done address null_body w = crash_session w
  create_session_done address not_json w = w
  create_session_done address (object none auth) w = w
  create_session_done address (object (some id) none) w = w
  create_session_done address (object (some id) (some auth)) w =
      request_server address get_messages (session_created (c_string id) (c_string auth) w)

  -- The `switch` on the type of a request that succeeded, before `cleanup`.
  abbrev pub succeeded : Str → RequestType → SessionJson → Session → Session
  succeeded address rt_createsession json w = create_session_done address json w
  succeeded address rt_postmessage json w = w
  succeeded address rt_deletesession json w = crash_session w
  succeeded address rt_getmessages json w = crash_session w

  -- The body of the loop for a request whose server has an address.
  unfoldable pub finish : Multi → Str → Done → Request → SessionJson → Session → Session
  unfolding note_result retry create_session_done cleanup
  finish multi address d r json w =
      let noted = note_result address d r w in
      if (is_error d && is_temporary d) || (not (is_error d) && is_getmessages r.kind)
      then retry multi address d.curl r noted
      else if is_error d && not (is_temporary d)
      then disconnect noted
      else cleanup multi d.curl (succeeded address r.kind json noted)

  -- The body of the loop of check_multi_info.
  unfoldable pub check_message : Multi → Done → Session → Session
  unfolding finish
  check_message multi d w =
      if d.is_done
      then elim (w.requests d.curl) [
        | none ↦ crash_session w
        | some r ↦ elim (address_of r w) [
          | none ↦ cleanup multi d.curl w
          | some address ↦ finish multi address d r (session_json r) w
        ]
      ]
      else w

  -- check_multi_info over the messages that curl_multi_info_read gives.
  unfoldable pub check_multi_info : Multi → List Done → Session → Session
  unfolding check_message
  check_multi_info multi [] w = w
  check_multi_info multi (d ∷ ms) w = check_multi_info multi ms (check_message multi d w)
