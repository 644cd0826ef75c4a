-- ===== src/Creation.antt =====
-- src/core/robustsession/robustsession.c: the answer to CreateSession, from the chunks of its body to
-- the GetMessages that follows it, or to nothing.
pub mod Answers
use irssi_robustirc.Session.{
  url_of, is_multi, Request, rt_createsession, rt_getmessages, curl_handle, curl_handle_gm,
  get_messages, Session, start_get_messages,
}
use irssi_robustirc.Base.Text.{Str-discrete, Str, codes, c_string, c_string-line}
use irssi_robustirc.Base.{
  Bool, ℕ, suc, ◌+◌, ◌^◌, ◌≡◌, ◌≢◌, ◌<◌, ◌⊎◌, inl, inr, refl, sym, ap, ◌∙◌, Option, true, false,
  none, some, List, [], ◌∷◌, ◌++◌, ℕ_discrete, length, arith, All, not, ◌&&◌, ◌||◌, Bool-cases,
}
use mathlib.Core.List.{flatten}
use irssi_robustirc.Base.Tables.{
  insert, remove, insert_self, insert_ne, insert_same, insert-insert, remove_self, remove_ne,
}
use irssi_robustirc.Glib.{Glib}
use irssi_robustirc.Network.{NetworkCtx, Networks, Outcome, network_succeeded, network_server}
use irssi_robustirc.Body.{BodyBuffer, no_body, size_mod, write_func}
use irssi_robustirc.Body.Collects.{IsBody, fresh, filled, receive, receive_response}
use irssi_robustirc.Completion.{
  World, Done, SessionJson, not_json, object, address_of, session_json, session_created,
  run_callback, settle, request_server, create_session_done, note_result, cleanup, finish,
  check_message, message_id,
}
use irssi_robustirc.Retries.{IsTaken, HasServer, network_server-IsTaken}
use irssi_robustirc.Receiving.{receive_body}
use irssi_robustirc.Runs.{Reach}
use irssi_robustirc.Ownership.Reach.{reachable-IsWhole}

-- The request has got a body.
abbrev pub put_body : ℕ → Request → BodyBuffer → Session → Session
put_body curl r body w = record w {
  requests = insert ℕ_discrete curl (record r { body = body }) w.requests;
}

-- The chunks of a response, while there is memory
unfoldable pub collect_chunks : (ℕ → Str) → List Str → ℕ → Session → Session
unfolding receive_body
collect_chunks junk [] curl w = w
collect_chunks junk (c ∷ cs) curl w =
    collect_chunks junk cs curl (receive_body junk true c 1 (length c) curl w).0

pub receive_body-some :
    (junk : ℕ → Str) (c : Str) (curl : ℕ) (r : Request) (w : Session)
    → w.requests curl ≡ some r
    → (receive_body junk true c 1 (length c) curl w).0
      ≡ put_body curl r (write_func junk true c 1 (length c) r.body).0 w
unfolding receive_body
receive_body-some junk c curl r w e = rw (e, receive_body) refl

pub collect_chunks_lem :
    (junk : ℕ → Str) (cs : List Str) (curl : ℕ) (r : Request) (w : Session)
    → w.requests curl ≡ some r
    → collect_chunks junk cs curl w ≡ put_body curl r (receive junk cs r.body) w
unfolding collect_chunks receive
collect_chunks_lem junk [] curl r w e =
    ap (λ t. record w { requests = t }) (sym (insert_same ℕ_discrete curl r w.requests e))
collect_chunks_lem junk (c ∷ cs) curl r w e =
    let body = (write_func junk true c 1 (length c) r.body).0 in
    let u = put_body curl r body w in
    let q = record r { body = body } in
    ap (collect_chunks junk cs curl) (receive_body-some junk c curl r w e)
    ∙ collect_chunks_lem junk cs curl q u (insert_self ℕ_discrete curl q w.requests)
    ∙ ap (λ t. record w { requests = t }) (insert-insert ℕ_discrete curl _ q w.requests)

pub body_text :
    (bytes : Str) (buffer : BodyBuffer)
    → IsBody bytes buffer
    → bytes ≢ []
    → buffer.body ≡ some (bytes ++ 0 ∷ [])
body_text bytes buffer fresh some_bytes = absurd (some_bytes refl)
body_text bytes buffer (filled b) some_bytes = refl

pub network_succeeded-HasServer :
    (g : Glib) (address target : Str) (networks : Networks)
    → HasServer g address networks
    → HasServer g address (network_succeeded g address target networks)
unfolding network_succeeded
network_succeeded-HasServer g address target networks (ctx, s, rest, e, f) =
    rw (e, network_succeeded)
      (_, s, rest, insert_self Str-discrete (g.strdown address) _ networks, f)

-- Another request than the one that is cleaned up
pub cleanup-other :
    (curl c : ℕ) (w : Session)
    → curl ≢ c
    → ((cleanup curl_handle curl w).requests c ≡ w.requests c)
      × ((cleanup curl_handle curl w).attached c ≡ w.attached c)
unfolding cleanup
cleanup-other curl c w apart = (
  remove_ne ℕ_discrete curl w.requests c apart,
  elim (Bool-cases (is_multi (w.attached curl) curl_handle)) [
    | inl on ↦ rw on (
        remove_ne ℕ_discrete curl (remove ℕ_discrete curl w.attached) c apart
        ∙ remove_ne ℕ_discrete curl w.attached c apart)
    | inr off ↦ rw off (remove_ne ℕ_discrete curl w.attached c apart)
  ],
)

-- libcurl says that the request ended with the status 200.
abbrev pub ok_done : ℕ → Done
ok_done curl = record { curl = curl; is_done = true; curl_ok = true; http_code = 200 }

-- The server of the request has answered.
abbrev pub noted : Glib → Str → Request → Session → Session
noted g address r w = record w { networks = network_succeeded g address r.target w.networks }

pub created_lem :
    (g : Glib) (world : World) (address : Str) (curl : ℕ) (r : Request) (w : Session)
    → w.requests curl ≡ some r
    → r.kind ≡ rt_createsession
    → address_of r w ≡ some address
    → check_message g world curl_handle (ok_done curl) w
      ≡ cleanup curl_handle curl
          (create_session_done g world address (session_json g world r) (noted g address r w))
unfolding check_message finish note_result
created_lem g world address curl r w e kind a =
    rw (e, check_message) (rw (a, check_message) (rw kind refl))

-- The GetMessages of the session is handed to libcurl.
abbrev pub IsGetting : Str → Str → Str → Session → Session → Type 0
IsGetting target id auth w w' =
    (q : Request) × (w'.requests w.next_curl ≡ some q)
    × (w'.attached w.next_curl ≡ some curl_handle_gm)
    × (w'.timers w.next_tag ≡ some w.next_curl)
    × (w'.sent ≡ w.sent ++ (w.next_curl, url_of q w.lastseen) ∷ [])
    × (q.kind ≡ rt_getmessages)
    × (q.target ≡ target)
    × (q.url_suffix ≡ codes "/robustirc/v1/" ++ (id ++ codes "/messages"))
    × (q.options.headers
        ≡ w.headers
          ++ (codes "Accept: application/json"
              ∷ codes "Content-Type: application/json"
              ∷ (codes "X-Session-Auth: " ++ auth)
              ∷ []))
    × (q.options.timeout ≡ 0)

pub settle-gets :
    (memory : Bool) (id_of : Str → ℕ) (address : Str) (w : Session) (o : Outcome)
    → IsTaken o
    → memory ≡ true
    → let w' = settle memory id_of address get_messages o w in
      ((target : Str) × (w' ≡ start_get_messages true target w))
      ⊎ (w' ≡ record w { waiting = w.waiting ++ (address, get_messages) ∷ [] })
unfolding run_callback
settle-gets memory id_of address w o (inl (target, made)) free =
    rw (made, free) (inl (target, refl))
settle-gets memory id_of address w o (inr (d, waits)) free = rw waits (inr refl)

-- JSON without the two strings, or no JSON
abbrev pub IsUseless : SessionJson → Type 0
IsUseless json =
    (json ≡ not_json)
    ⊎ ((auth : Option Str) × (json ≡ object none auth))
    ⊎ ((id : Str) × (json ≡ object (some id) none))
