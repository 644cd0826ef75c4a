-- ===== src/Session.antt =====
-- src/core/robustsession/robustsession.c: one session, its requests, and how they start. libcurl,
-- yajl and irssi are not part of this repository: whether curl_easy_init finds memory is an
-- argument.
use irssi_robustirc.Base.Counts.{list_remove}
use irssi_robustirc.Base.{
  ℕ, suc, Bool, true, false, Option, none, some, List, [], ◌∷◌, ◌++◌, if◌then◌else◌, ℕ_discrete,
}
use irssi_robustirc.Base.Int.{ℤ, pos}
use irssi_robustirc.Base.Text.{Str, codes}
use irssi_robustirc.Base.Tables.{insert, remove}
use irssi_robustirc.Network.{Networks}
use irssi_robustirc.Body.{BodyBuffer, no_body}

-- The `type` of struct t_robustirc_request
pub data RequestType : Type 0 where
  rt_createsession rt_deletesession rt_postmessage rt_getmessages : RequestType

-- The options that curl_set_common_options sets, but for the pointers to the request.
pub data IpVersion : Type 0 where
  ip_v4 ip_v6 : IpVersion

pub record Options : Type 0 where
  pub user_agent : Str
  pub headers : List Str
  pub verify_peer : Bool
  pub timeout : ℕ
  pub connect_timeout : ℕ
  pub resolve : Option IpVersion

-- The fields that the JSON callbacks of a GetMessages keep, `message_data` for `data`; `fed` are the
-- bytes that its yajl handle has been given.
pub record Parse : Type 0 where
  pub last_key : Option Str
  pub message_data : Option Str
  pub parsing_id : Bool
  pub parsing_servers : Bool
  pub last_id_id : ℕ
  pub last_id_reply : ℕ
  pub last_type : ℤ
  pub depth : ℤ
  pub servers : Option (List Str)
  pub fed : Str

-- What yajl_gen writes as "Data" and "ClientMessageId"
pub record Post : Type 0 where
  pub line : Str
  pub client_message_id : ℕ

-- struct t_robustirc_request; `has_server` is false once robustsession_write_only cleared `server`.
-- The options of its CURL handle are beside it.
pub record Request : Type 0 where
  pub kind : RequestType
  pub target : Str
  pub url_suffix : Str
  pub has_server : Bool
  pub post : Option Post
  pub options : Options
  pub body : BodyBuffer
  pub parse : Parse
  pub timeout_tag : ℕ

-- The handles curl_handle and curl_handle_gm
pub data Multi : Type 0 where
  curl_handle curl_handle_gm : Multi

-- The callbacks that are given to robustsession_network_server, with their data.
pub data Callback : Type 0 where
  connect_target : Callback
  get_messages : Callback
  retry_request : ℕ → Callback
  send_target : Str → Callback

-- The `family` of a connection record: zero, AF_INET, or another
pub data Family : Type 0 where
  any_family inet other_family : Family

-- What the code reads of a SERVER_CONNECT_REC
pub record Connrec : Type 0 where
  pub address : Str
  pub tls_verify : Bool
  pub family : Family

-- A session (struct t_robustsession_ctx) and what belongs to it. A CURL handle is a number.
pub record Session : Type 0 where
  pub sessionid : Option Str
  pub sessionauth : Option Str
  pub lastseen : Str
  pub headers : List Str
  pub curl_handles : List ℕ
  pub cancelled : Bool
  -- The request of each handle that is not freed, and the multi handle that it was added to.
  pub requests : ℕ → Option Request
  pub attached : ℕ → Option Multi
  pub next_curl : ℕ
  -- The handle that each running get_messages_timeout is for, by its tag.
  pub timers : ℕ → Option ℕ
  pub next_tag : ℕ
  -- Requests that wait for a server, with the address of their network (struct server_retry_ctx).
  pub waiting : List (Str × Callback)
  -- The URLs of the requests, in the order in which they were handed to libcurl.
  pub sent : List (ℕ × Str)
  pub networks : Networks
  -- The lines that were handed to irssi
  pub incoming : List Str
  -- server->connrec->address, and two other fields of the connection record
  pub address : Option Str
  pub tls_verify : Bool
  pub family : Family
  pub connected : Bool
  pub connection_lost : Bool
  pub crashed : Bool

-- printf's "%s" of a string that may be null
abbrev pub printed : Option Str → Str
printed none = codes "(null)"
printed (some s) = s

abbrev pub is_getmessages : RequestType → Bool
is_getmessages rt_getmessages = true
is_getmessages _ = false

abbrev pub is_multi : Option Multi → Multi → Bool
is_multi none m = false
is_multi (some curl_handle) curl_handle = true
is_multi (some curl_handle_gm) curl_handle_gm = true
is_multi _ _ = false

-- "https://%s%s", and "?lastseen=%s" behind it for GetMessages
unfoldable pub url_of : Request → Str → Str
url_of r lastseen =
    codes "https://"
    ++ (r.target
        ++ (r.url_suffix ++ (if is_getmessages r.kind then codes "?lastseen=" ++ lastseen else [])))

-- curl_multi_add_handle, and the handle at the end of the session's list
unfoldable pub add_handle : Multi → ℕ → Session → Session
add_handle multi curl w = record w {
  attached = insert ℕ_discrete curl multi w.attached;
  curl_handles = w.curl_handles ++ curl ∷ [];
}

-- curl_multi_remove_handle, which fails for a handle of another multi handle
unfoldable pub multi_remove : Multi → ℕ → Session → Session
multi_remove multi curl w = record w {
  attached =
      if is_multi (w.attached curl) multi then remove ℕ_discrete curl w.attached else w.attached;
}

-- curl_easy_cleanup, which takes the handle off a multi handle that it is still on, and the frees of
-- the request
unfoldable pub free_request : ℕ → Session → Session
free_request curl w = record w {
  requests = remove ℕ_discrete curl w.requests;
  attached = remove ℕ_discrete curl w.attached;
}

-- g_list_remove (ctx->curl_handles, curl)
unfoldable pub forget_handle : ℕ → Session → Session
unfolding list_remove
forget_handle curl w = record w { curl_handles = list_remove curl w.curl_handles }

-- g_source_remove (timeout_tag)
unfoldable pub source_remove : ℕ → Session → Session
source_remove tag w = record w { timers = remove ℕ_discrete tag w.timers }

-- `if (request->type == RT_GETMESSAGES) g_source_remove (request->timeout_tag);`
unfoldable pub stop_timer : Request → Session → Session
stop_timer r w = record w {
  timers = if is_getmessages r.kind then remove ℕ_discrete r.timeout_tag w.timers else w.timers;
}

-- The end of get_messages, robustsession_connect_target and robustsession_send_target: a new handle
-- with its request is handed to libcurl.
unfoldable pub start_request : Multi → Request → Session → Session
unfolding add_handle url_of
start_request multi r w =
    let curl = w.next_curl in
    add_handle multi curl (record w {
      next_curl = suc curl;
      requests = insert ℕ_discrete curl r w.requests;
      sent = w.sent ++ (curl, url_of r w.lastseen) ∷ [];
    })

-- g_new0 of the fields that the JSON callbacks keep, and yajl_alloc
abbrev pub new_parse : Parse
new_parse = record {
  last_key = none;
  message_data = none;
  parsing_id = false;
  parsing_servers = false;
  last_id_id = 0;
  last_id_reply = 0;
  last_type = pos 0;
  depth = pos 0;
  servers = none;
  fed = [];
}

abbrev pub resolve_of : Family → Option IpVersion
resolve_of any_family = none
resolve_of inet = some ip_v4
resolve_of other_family = some ip_v6

-- curl_set_common_options
abbrev pub common_options : Session → Options
common_options w = record {
  user_agent = codes "irssi-plugin-robustirc v0.6";
  headers = w.headers;
  verify_peer = w.tls_verify;
  timeout = 30;
  connect_timeout = 5;
  resolve = resolve_of w.family;
}

-- get_messages
unfoldable pub start_get_messages : Bool → Str → Session → Session
unfolding start_request
start_get_messages memory target w =
    let tag = w.next_tag in
    let r : Request = record {
      kind = rt_getmessages;
      target = target;
      url_suffix = codes "/robustirc/v1/" ++ (printed w.sessionid ++ codes "/messages");
      has_server = true;
      post = none;
      options = record (common_options w) { timeout = 0 };
      body = no_body;
      parse = new_parse;
      timeout_tag = tag;
    } in
    if memory
    then start_request curl_handle_gm r
        (record w { next_tag = suc tag; timers = insert ℕ_discrete tag w.next_curl w.timers })
    else w

-- robustsession_connect_target
unfoldable pub start_connect : Bool → Str → Session → Session
unfolding start_request
start_connect memory target w =
    let r : Request = record {
      kind = rt_createsession;
      target = target;
      url_suffix = codes "/robustirc/v1/session";
      has_server = true;
      post = none;
      options = common_options w;
      body = no_body;
      parse = new_parse;
      timeout_tag = 0;
    } in
    if memory then start_request curl_handle r w else w

-- robustsession_send_target; `memory` for curl_easy_init and yajl_gen_alloc together, and the
-- ClientMessageId.
unfoldable pub start_send : Bool → ℕ → Str → Str → Session → Session
unfolding start_request
start_send memory id buffer target w =
    let r : Request = record {
      kind = rt_postmessage;
      target = target;
      url_suffix = codes "/robustirc/v1/" ++ (printed w.sessionid ++ codes "/message");
      has_server = true;
      post = some (record { line = buffer; client_message_id = id });
      options = common_options w;
      body = no_body;
      parse = new_parse;
      timeout_tag = 0;
    } in
    if memory then start_request curl_handle r w else w

-- What gm_json_end_map does with the timer of its request for a ping.
unfoldable pub restart_timer : ℕ → Request → Session → Session
restart_timer curl r w =
    let tag = w.next_tag in
    record w {
      next_tag = suc tag;
      timers = insert ℕ_discrete tag curl (remove ℕ_discrete r.timeout_tag w.timers);
      requests = insert ℕ_discrete curl (record r { timeout_tag = tag }) w.requests;
    }
