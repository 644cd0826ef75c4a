-- ===== src/Verdicts.antt =====
-- What check_multi_info decides from the result of a request and its status.
use irssi_robustirc.Base.Tables.{remove}
use irssi_robustirc.Base.{
  ◌++◌, ◌∷◌, [], some, ℕ_discrete, ℕ, true, false, not, if◌then◌else◌, ◌==◌, leb, ltb,
}
use irssi_robustirc.Base.Counts.{list_remove}
use irssi_robustirc.Base.Text.{codes, c_string, Str}
use irssi_robustirc.Session.{
  RequestType, rt_createsession, rt_postmessage, is_multi, get_messages, retry_request, Request,
  Multi, Session, is_getmessages,
}
use irssi_robustirc.Completion.{object, null_body, request_server, World, Done, SessionJson}
use irssi_robustirc.Glib.{Glib}
use irssi_robustirc.Network.{network_failed, network_succeeded}

-- Send the request again, give the connection up, or take the request as done.
pub data Verdict : Type 0 where
  again gives_up is_done : Verdict

-- By the result of libcurl, then by the status.
abbrev pub verdict : Done → Request → Verdict
verdict d r =
    if not d.curl_ok
    then again
    else if d.http_code == 200
    then (if is_getmessages r.kind then again else is_done)
    else if leb 500 d.http_code
    then (if ltb d.http_code 600 then again else gives_up)
    else gives_up

-- The request of the handle is freed: libcurl and the list of the session no longer have it.
abbrev pub without : ℕ → Session → Session
without curl w = record w {
  requests = remove ℕ_discrete curl w.requests;
  attached = remove ℕ_discrete curl w.attached;
  curl_handles = list_remove curl w.curl_handles;
}

module _ (g : Glib) (world : World) where
  open world use {now, rand}

  -- The server's backoff state grows.
  abbrev pub noted_failed : Str → Request → Session → Session
  noted_failed address r w = record w {
    networks = network_failed g now rand address r.target w.networks;
  }

  abbrev pub noted_succeeded : Str → Request → Session → Session
  noted_succeeded address r w = record w {
    networks = network_succeeded g address r.target w.networks;
  }

  -- What the type of a request that is done asks for, by the JSON of its body: a CreateSession that
  -- is answered with an id and a secret gives the session both and asks for a server for its
  -- GetMessages, a PostMessage asks for nothing, and the code has no other case.
  abbrev pub asked_for : Str → RequestType → SessionJson → Session → Session
  asked_for address rt_postmessage json w = w
  asked_for address rt_createsession (object (some id) (some auth)) w =
      request_server g world address get_messages (record w {
        sessionid = some (c_string id);
        sessionauth = some (c_string auth);
        headers =
            w.headers
            ++ (codes "Accept: application/json"
                ∷ codes "Content-Type: application/json"
                ∷ (codes "X-Session-Auth: " ++ c_string auth)
                ∷ []);
        connected = true;
      })
  asked_for address rt_createsession null_body w = record w { crashed = true }
  asked_for address rt_createsession _ w = w
  asked_for address _ json w = record w { crashed = true }

  -- What a verdict on an ended request comes to.
  abbrev pub carried_out : Verdict → Multi → Str → ℕ → Request → SessionJson → Session → Session
  carried_out again multi address curl r json w =
      request_server g world address (retry_request curl) (record (noted_failed address r w) {
        attached =
            if is_multi (w.attached curl) multi
            then remove ℕ_discrete curl w.attached
            else w.attached;
        curl_handles = list_remove curl w.curl_handles;
        timers =
            if is_getmessages r.kind then remove ℕ_discrete r.timeout_tag w.timers else w.timers;
      })
  carried_out gives_up multi address curl r json w = record (noted_failed address r w) {
    connection_lost = true;
    connected = false;
  }
  carried_out is_done multi address curl r json w =
      without curl (asked_for address r.kind json (noted_succeeded address r w))
