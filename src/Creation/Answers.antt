-- ===== src/Creation/Answers.antt =====
-- What a CreateSession with the status 200 leads to, by its body.
use irssi_robustirc.Base.{
  ℕ, ◌+◌, ◌^◌, ◌≡◌, ◌≢◌, ◌<◌, ◌⊎◌, inl, inr, refl, ap, ◌∙◌, true, false, none, some, List, [], ◌∷◌,
  ◌++◌, ℕ_discrete, length, arith, All,
}
use mathlib.Core.List.{flatten}
use irssi_robustirc.Base.Text.{Str, c_string, c_string-line}
use irssi_robustirc.Base.Tables.{insert_self, remove_self}
use irssi_robustirc.Glib.{Glib}
use irssi_robustirc.Network.{NetworkCtx, Networks, Outcome, network_succeeded}
use irssi_robustirc.Body.{no_body, size_mod}
use irssi_robustirc.Body.Collects.{receive, receive_response}
use irssi_robustirc.Session.{
  Request, rt_createsession, curl_handle, curl_handle_gm, get_messages, Session, start_get_messages,
}
use irssi_robustirc.Completion.{
  World, SessionJson, object, address_of, session_json, session_created, settle, request_server,
  create_session_done, cleanup, check_message, message_id,
}
use irssi_robustirc.Retries.{IsTaken, network_server-IsTaken}
use irssi_robustirc.Runs.{Reach}
use irssi_robustirc.Ownership.Reach.{reachable-IsWhole}
use irssi_robustirc.Creation.{
  put_body, collect_chunks, collect_chunks_lem, body_text, network_succeeded-HasServer,
  cleanup-other, ok_done, noted, created_lem, IsGetting, settle-gets, IsUseless,
}

module _ (g : Glib) (world : World) (junk : ℕ → Str) (junk_length : (n : ℕ) → length (junk n) ≡ n)
    (address : Str) (cs : List Str) (curl : ℕ) (r : Request) (w : Session) where
  -- The session when the body is there
  abbrev answering : Session
  answering = put_body curl r (receive junk cs no_body) w

  answered_lem :
      w.requests curl ≡ some r
      → r.kind ≡ rt_createsession
      → r.body ≡ no_body
      → address_of r w ≡ some address
      → All (λ c. length c < 2 ^ 14) cs
      → length (flatten cs) + 1 < size_mod
      → All (λ c. c ≢ 0) (flatten cs)
      → flatten cs ≢ []
      → check_message g world curl_handle (ok_done curl) (collect_chunks junk cs curl w)
        ≡ cleanup curl_handle curl (
            create_session_done g world address
              (world.tree (flatten cs))
              (noted g address r answering))
  answered_lem e kind empty a small fits clean some_bytes =
      let body = receive junk cs no_body in
      let q = record r { body = body } in
      let text =
        body_text (flatten cs) body (receive_response junk junk_length cs small fits) some_bytes in
      let json : session_json g world q ≡ world.tree (flatten cs) =
        rw text (ap world.tree (c_string-line (flatten cs) [] clean)) in
      ap (check_message g world curl_handle (ok_done curl)) (
        collect_chunks_lem junk cs curl r w e
        ∙ ap (λ b. put_body curl r (receive junk cs b) w) empty)
      ∙ created_lem g world address curl q answering (insert_self ℕ_discrete curl q w.requests) kind
          a
      ∙ ap
          (λ j.
            cleanup curl_handle curl
              (create_session_done g world address j (noted g address r answering)))
          json

  useless_done :
      (j : SessionJson) (v : Session) → IsUseless j → create_session_done g world address j v ≡ v
  unfolding create_session_done
  useless_done j v (inl none_there) = rw none_there refl
  useless_done j v (inr (inl (auth, no_id))) = rw no_id refl
  useless_done j v (inr (inr (id, no_auth))) = rw no_auth refl

  -- If the body of a CreateSession with the status 200 is no JSON, or JSON without the strings
  -- "Sessionid" and "Sessionauth", the request is freed and nothing follows: the session gets no
  -- id, nothing is sent or starts to wait, and the connection is not given up.
  pub session_stuck :
      w.requests curl ≡ some r
      → r.kind ≡ rt_createsession
      → r.body ≡ no_body
      → address_of r w ≡ some address
      → All (λ c. length c < 2 ^ 14) cs
      → length (flatten cs) + 1 < size_mod
      → All (λ c. c ≢ 0) (flatten cs)
      → flatten cs ≢ []
      → IsUseless (world.tree (flatten cs))
      → let w' = check_message g world curl_handle (ok_done curl) (collect_chunks junk cs curl w) in
        (w'.requests curl ≡ none)
        × (w'.sessionid ≡ w.sessionid)
        × (w'.sent ≡ w.sent)
        × (w'.waiting ≡ w.waiting)
        × (w'.connected ≡ w.connected)
        × (w'.connection_lost ≡ w.connection_lost)
        × (w'.crashed ≡ w.crashed)
  unfolding create_session_done cleanup
  session_stuck e kind empty a small fits clean some_bytes useless =
      rw
        (
          answered_lem e kind empty a small fits clean some_bytes,
          useless_done (world.tree (flatten cs)) (noted g address r answering) useless,
        )
        (remove_self ℕ_discrete curl answering.requests, refl, refl, refl, refl, refl, refl)

  -- The session that asks for a server for its GetMessages
  abbrev ready : Str → Str → Networks → Session
  ready id auth networks = record (session_created id auth (noted g address r answering)) {
    networks = networks;
  }

  gets_lem :
      (target id auth : Str) (networks : Networks)
      → curl < w.next_curl
      → IsGetting target id auth w
          (cleanup curl_handle curl (start_get_messages true target (ready id auth networks)))
  unfolding start_get_messages cleanup
  gets_lem target id auth networks old =
      let v = ready id auth networks in
      let (requests, attached) =
        cleanup-other curl w.next_curl (start_get_messages true target v)
          (λ same. omega (arith, same, old)) in
      (
        _,
        requests ∙ insert_self ℕ_discrete w.next_curl _ v.requests,
        attached ∙ insert_self ℕ_discrete w.next_curl curl_handle_gm w.attached,
        insert_self ℕ_discrete w.next_tag w.next_curl w.timers,
        refl,
        refl,
        refl,
        refl,
        refl,
        refl,
      )

  -- What the answer comes to once the request is cleaned up
  abbrev pub IsStarted : Str → Str → Session → Type 0
  IsStarted id auth w' =
      (w'.sessionid ≡ some id)
      × (w'.connected ≡ true)
      × (w'.requests curl ≡ none)
      × (((target : Str) × IsGetting target id auth w w')
          ⊎ (w'.waiting ≡ w.waiting ++ (address, get_messages) ∷ []))

  taken_lem :
      (id auth : Str) (networks : Networks) (o : Outcome)
      → curl < w.next_curl
      → world.memory ≡ true
      → IsTaken o
      → IsStarted id auth (
          cleanup curl_handle curl (
            settle world.memory
              (message_id g world)
              address
              get_messages
              o
              (ready id auth networks)))
  unfolding cleanup start_get_messages
  taken_lem id auth networks o old memory taken =
      elim (settle-gets world.memory (message_id g world) address (ready id auth networks) o taken
        memory) [
          | inl (target, made) ↦ rw made (
            refl,
            refl,
            remove_self ℕ_discrete curl
                (start_get_messages true target (ready id auth networks)).requests,
            inl (target, gets_lem target id auth networks old),
          )
          | inr waits ↦
              rw waits (refl, refl, remove_self ℕ_discrete curl answering.requests, inr refl)
        ]

  -- In a session that the events lead to: if the body of a CreateSession with the status 200 is
  -- JSON with the strings "Sessionid" and "Sessionauth", in chunks of fewer than 2^14 bytes and
  -- without a NUL, while curl_easy_init has memory, the session is not cancelled and the network of
  -- its server has servers, then the session gets the id and counts as connected, the CreateSession
  -- is freed, and a GetMessages of the id with the headers for the authentication, no time limit
  -- and a timer is handed to libcurl, or waits for a server.
  pub session_starts :
      (id auth : Str) (ctx : NetworkCtx) (s : Str) (rest : List Str)
      → Reach g w
      → w.requests curl ≡ some r
      → r.kind ≡ rt_createsession
      → r.body ≡ no_body
      → address_of r w ≡ some address
      → All (λ c. length c < 2 ^ 14) cs
      → length (flatten cs) + 1 < size_mod
      → All (λ c. c ≢ 0) (flatten cs)
      → flatten cs ≢ []
      → world.tree (flatten cs) ≡ object (some id) (some auth)
      → world.memory ≡ true
      → w.cancelled ≡ false
      → w.networks (g.strdown address) ≡ some ctx
      → ctx.servers ≡ s ∷ rest
      → IsStarted
          (c_string id)
          (c_string auth)
          (check_message g world curl_handle (ok_done curl) (collect_chunks junk cs curl w))
  unfolding create_session_done request_server
  session_starts id auth ctx s rest reach e kind empty a small fits clean some_bytes json memory
        running known some_server =
      let networks = network_succeeded g address r.target w.networks in
      let taken = network_server-IsTaken g world.clock address world.random networks (
        network_succeeded-HasServer g address r.target w.networks
          (ctx, s, rest, known, some_server)) in
      rw (answered_lem e kind empty a small fits clean some_bytes, json)
        (taken_lem (c_string id) (c_string auth) _ _
          ((reachable-IsWhole reach).0.new_handle curl r e) memory (rw running taken))
