-- ===== src/Tests/Sessions.antt =====
-- The requests of a session at concrete inputs: it connects, a CreateSession ends, a GetMessages runs.
use irssi_robustirc.Base.Counts.{count}
use irssi_robustirc.Completion.{
  address_of, World, Done, SessionJson, not_json, object, check_message, message_id,
}
use irssi_robustirc.Base.{◌<◌, ◌≡◌, refl, inl, true, false, some, none, [], ◌∷◌, arith, ite, ◌++◌}
use irssi_robustirc.Base.Tables.{empty, insert, remove}
use irssi_robustirc.Base.Text.{Str, Str-discrete, codes, c_string}
use irssi_robustirc.Network.{
  NetworkCtx, Networks, network_resolve, network_server, network_succeeded, network_failed,
}
use irssi_robustirc.Session.{
  Request, curl_handle, curl_handle_gm, Session, rt_getmessages, rt_createsession, rt_postmessage,
  Connrec, Options, ip_v4, inet, new_parse,
}
use irssi_robustirc.Teardown.{connect, write_only, destroy, get_messages_timeout, send}
use irssi_robustirc.Runs.{Reach, connects, later, ends, sends, leaves, collects}
use irssi_robustirc.Ownership.{IsWhole}
use irssi_robustirc.Ownership.Reach.{reachable-IsWhole}
use irssi_robustirc.Ownership.Leaving.{Leaves, write_only_effect}
use irssi_robustirc.Ownership.Quiet.{teardown_quiet, left_request_ends}
use irssi_robustirc.Retries.{failed_request_stays, GoesOnAt}
use irssi_robustirc.Timers.Ends.{lost_address_dangles}
use irssi_robustirc.Body.{no_body, take, drop, write_func, write_chunk, append_chunk}
use irssi_robustirc.Tests.Bodies.{junk}
use irssi_robustirc.Receiving.{receive_body}
use irssi_robustirc.Tests.Ascii.{ascii, lower}

abbrev pub address : Str
address = codes "robustirc.net"

abbrev pub ctx : NetworkCtx
ctx = record { servers = codes "a:1" ∷ codes "b:2" ∷ []; backoff = empty }

-- After the first request succeeded
abbrev pub started_ctx : NetworkCtx
started_ctx = record ctx { backoff = remove Str-discrete (codes "a:1") empty }

abbrev pub table : Networks
table = insert Str-discrete (lower address) ctx empty

-- The answer of the server to CreateSession
abbrev pub answer_text : Str
answer_text = codes "{\"Sessionid\":\"0x13\",\"Sessionauth\":\"s\"}"

abbrev pub answer : SessionJson
answer = object (some (codes "0x13")) (some (codes "s"))

abbrev tree_of : Str → SessionJson
tree_of text = ite (Str-discrete text answer_text) answer not_json

abbrev pub world : World
world = record {
  now = 200;
  clock = λ k. 200;
  rand = 0;
  random = true;
  memory = true;
  tree = tree_of;
}

abbrev pub connrec : Connrec
connrec = record { address = address; tls_verify = true; family = inet }

abbrev pub connected : Session
connected = (connect ascii world connrec table).0

-- The body arrives in two chunks.
abbrev pub first_half : Session
first_half = (receive_body junk true answer_text 1 20 0 connected).0

abbrev answering : Session
answering = (receive_body junk true (drop 20 answer_text) 1 18 0 first_half).0

abbrev created : Done
created = record { curl = 0; is_done = true; curl_ok = true; http_code = 200 }

abbrev pub started : Session
started = check_message ascii world curl_handle created answering

abbrev common : Options
common = record {
  user_agent = codes "irssi-plugin-robustirc v0.6";
  headers = [];
  verify_peer = true;
  timeout = 30;
  connect_timeout = 5;
  resolve = some ip_v4;
}

abbrev with_auth : Options
with_auth = record common {
  headers =
      codes "Accept: application/json"
      ∷ codes "Content-Type: application/json"
      ∷ codes "X-Session-Auth: s"
      ∷ [];
}

abbrev pub create_request : Request
create_request = record {
  kind = rt_createsession;
  target = codes "a:1";
  url_suffix = codes "/robustirc/v1/session";
  has_server = true;
  post = none;
  options = common;
  body = no_body;
  parse = new_parse;
  timeout_tag = 0;
}

abbrev first_request : Request
first_request = record create_request {
  body = record { body = some (take 20 answer_text ++ 0 ∷ []); size = 20 };
}

abbrev answered_request : Request
answered_request = record create_request {
  body = record { body = some (answer_text ++ 0 ∷ []); size = 38 };
}

abbrev pub messages_request : Request
messages_request = record {
  kind = rt_getmessages;
  target = codes "a:1";
  url_suffix = codes "/robustirc/v1/0x13/messages";
  has_server = true;
  post = none;
  options = record with_auth { timeout = 0 };
  body = no_body;
  parse = new_parse;
  timeout_tag = 1;
}

-- What the steps up to the GetMessages leave
pub connected_facts :
    (connected.sent ≡ (0, codes "https://a:1/robustirc/v1/session") ∷ [])
    × (connected.requests 0 ≡ some create_request)
    × (connected.attached 0 ≡ some curl_handle)
unfolding connect network_resolve ascii Str-discrete network_server
connected_facts = (refl, refl, refl)

answering_facts :
    (first_half.requests 0 ≡ some first_request)
    × (answering.requests 0 ≡ some answered_request)
    × (answering.attached 0 ≡ some curl_handle)
    × (address_of answered_request answering ≡ some address)
unfolding connect network_resolve ascii Str-discrete network_server receive_body write_func
    write_chunk append_chunk
answering_facts = (refl, refl, refl, refl)

pub started_facts :
    (started.sent
      ≡ (0, codes "https://a:1/robustirc/v1/session")
        ∷ (1, codes "https://a:1/robustirc/v1/0x13/messages?lastseen=0.0")
        ∷ [])
    × (started.requests 1 ≡ some messages_request)
    × (started.attached 1 ≡ some curl_handle_gm)
    × (started.timers 1 ≡ some 1)
    × (0 < count 1 started.curl_handles)
    × (started.networks (ascii.strdown address) ≡ some started_ctx)
    × (started.cancelled ≡ false)
    × (address_of messages_request started ≡ some address)
unfolding connect network_resolve ascii Str-discrete network_server check_message network_succeeded
    receive_body write_func write_chunk append_chunk c_string
started_facts = (refl, refl, refl, refl, omega arith, refl, refl, refl)

pub run : Reach ascii started
run =
    later
      (later
        (later (connects world connrec table)
          (collects junk true answer_text 1 20 0 create_request connected_facts.1 refl))
        (collects junk true (drop 20 answer_text) 1 18 0 first_request answering_facts.0 refl))
      (ends world curl_handle created answered_request answering_facts.2 answering_facts.1
        (inl refl))

pub table_known : started.networks (ascii.strdown address) ≡ some started_ctx
table_known = started_facts.5

pub still_running : started.cancelled ≡ false
still_running = started_facts.6

pub messages_found : started.requests 1 ≡ some messages_request
messages_found = started_facts.1

messages_attached : started.attached 1 ≡ some curl_handle_gm
messages_attached = started_facts.2

messages_timed : started.timers 1 ≡ some 1
messages_timed = started_facts.3

messages_listed : 0 < count 1 started.curl_handles
messages_listed = started_facts.4

pub address_known : address_of messages_request started ≡ some address
address_known = started_facts.7

reachable-IsWhole_example : IsWhole started
reachable-IsWhole_example = reachable-IsWhole run

write_only_effect_example :
    Leaves 1 messages_request started ((write_only started).curl_handles, write_only started)
write_only_effect_example =
    write_only_effect started 1 messages_request run messages_listed messages_found

teardown_quiet_example :
    ((write_only started).timers 1 ≡ none)
    × ((write_only started).waiting ≡ started.waiting)
    × ((destroy started).timers 1 ≡ none)
    × ((destroy started).attached 1 ≡ none)
    × ((destroy started).waiting ≡ [])
teardown_quiet_example = teardown_quiet started 1 1 run

-- The connection of GetMessages breaks off.
abbrev pub broken : Done
broken = record { curl = 1; is_done = true; curl_ok = false; http_code = 0 }

failed_request_stays_example :
    GoesOnAt ascii world address
      (network_failed ascii 200 0 address (codes "a:1") started.networks)
      (codes "a:1" ∷ codes "b:2" ∷ [])
      1
      messages_request
      started
      (check_message ascii world curl_handle_gm broken started)
failed_request_stays_example =
    failed_request_stays ascii world curl_handle_gm broken messages_request started address
      started_ctx (codes "a:1") (codes "b:2" ∷ []) refl messages_found address_known (inl refl)
      still_running table_known refl

-- irssi drops the address of the server.
abbrev lost : Session
lost = record started { address = none }

lost_address_dangles_example :
    (get_messages_timeout ascii world 1
      (check_message ascii world curl_handle_gm broken lost)).crashed
    ≡ true
lost_address_dangles_example =
    lost_address_dangles ascii world curl_handle_gm broken messages_request lost refl messages_found
      refl messages_timed

-- A line is sent, and the session is left before the server answers.
abbrev line_sent : Session
line_sent = send ascii world address (codes "PRIVMSG #a :b") started

abbrev left : Session
left = write_only line_sent

abbrev line_request : Request
line_request = record {
  kind = rt_postmessage;
  target = codes "a:1";
  url_suffix = codes "/robustirc/v1/0x13/message";
  has_server = false;
  post = some (record {
    line = codes "PRIVMSG #a :b";
    client_message_id = message_id ascii world (codes "PRIVMSG #a :b");
  });
  options = with_auth;
  parse = new_parse;
  body = no_body;
  timeout_tag = 0;
}

abbrev answered : Done
answered = record { curl = 2; is_done = true; curl_ok = true; http_code = 200 }

left_run : Reach ascii left
left_run = later (later run (sends world address (codes "PRIVMSG #a :b"))) leaves

line_found : left.requests 2 ≡ some line_request
unfolding connect network_resolve ascii Str-discrete network_server check_message network_succeeded
    send write_only c_string receive_body write_func write_chunk append_chunk
line_found = refl

line_attached : left.attached 2 ≡ some curl_handle
unfolding connect network_resolve ascii Str-discrete network_server check_message network_succeeded
    send write_only c_string receive_body write_func write_chunk append_chunk
line_attached = refl

left_request_ends_example :
    let w' = check_message ascii world curl_handle answered left in
    (w'.requests 2 ≡ none)
    × (w'.attached 2 ≡ none)
    × (count 2 w'.curl_handles ≡ 0)
    × (w'.sent ≡ left.sent)
    × (w'.waiting ≡ left.waiting)
    × (w'.networks ≡ left.networks)
    × (w'.crashed ≡ left.crashed)
left_request_ends_example =
    left_request_ends ascii world curl_handle answered line_request left left_run refl line_attached
      line_found refl
