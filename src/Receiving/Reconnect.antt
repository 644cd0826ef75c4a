-- ===== src/Receiving/Reconnect.antt =====
-- A GetMessages that is handed to libcurl again goes on where it stopped.
use irssi_robustirc.Base.{
  ℕ, ◌≡◌, refl, sym, ap, subst, ◌∙◌, ◌⊎◌, true, false, some, List, [], ◌∷◌, ◌++◌, inl, inr,
  flat_map, ℕ_discrete,
}
use mathlib.Core.List.{append_assoc}
use irssi_robustirc.Base.Text.{Str}
use irssi_robustirc.Base.Tables.{insert, insert_self}
use irssi_robustirc.Glib.{Glib}
use irssi_robustirc.Yajl.{Yajl}
use irssi_robustirc.Network.{NetworkCtx, Networks, Outcome, network_server}
use irssi_robustirc.Messages.Format.{Message, tokens_of}
use irssi_robustirc.Messages.Delivery.{IsIdle}
use irssi_robustirc.Session.{
  Request, Multi, Session, retry_request, is_getmessages, multi_remove, forget_handle, stop_timer,
}
use irssi_robustirc.Completion.{
  World, Done, SessionJson, address_of, session_json, message_id, is_error, is_temporary,
  note_result, run_callback, settle, request_server, resend, retried, retry, finish, check_message,
}
use irssi_robustirc.Retries.{
  IsTaken, HasServer, IsPassing, passing_retried, network_server-IsTaken, network_failed-HasServer,
  failed_noted,
}
use irssi_robustirc.Receiving.{stream_of}
use irssi_robustirc.Receiving.Chunks.{Chunk, bytes_of, receive_chunks}
use irssi_robustirc.Receiving.Resume.{lines_of, position, stream_lines}

-- The session of a request that is to be sent again, when a server is found or waited for
abbrev waiting_for : Multi → ℕ → Request → Networks → Session → Session
waiting_for multi curl r networks w =
    record (stop_timer r (forget_handle curl (multi_remove multi curl w))) { networks = networks }

module _ (g : Glib) (world : World) where
  finish_retries :
      (multi : Multi) (address : Str) (d : Done) (r : Request) (json : SessionJson) (w : Session)
      → IsPassing d r
      → w.cancelled ≡ false
      → HasServer g address w.networks
      → (networks : Networks) × (o : Outcome) × IsTaken o
        × (finish g world multi address d r json w
            ≡ settle world.memory
                (message_id g world)
                address
                (retry_request d.curl)
                o
                (waiting_for multi d.curl r networks w))
  unfolding finish retry request_server note_result
  finish_retries multi address d r json w passing running known =
      let again = passing_retried d r passing in
      let noted = (note_result g world address d r w).networks in
      let known' : HasServer g address noted =
        rw (failed_noted (is_error d) (is_temporary d) (is_getmessages r.kind) again)
          (network_failed-HasServer g world.now world.rand address r.target w.networks known) in
      let answer = network_server g world.clock w.cancelled address world.random noted in
      let taken : IsTaken answer.1 =
        rw running (network_server-IsTaken g world.clock address world.random noted known') in
      (answer.0, answer.1, taken, rw again refl)

  check_retries :
      (multi : Multi) (address : Str) (d : Done) (r : Request) (w : Session)
      → d.is_done ≡ true
      → w.requests d.curl ≡ some r
      → address_of r w ≡ some address
      → IsPassing d r
      → w.cancelled ≡ false
      → HasServer g address w.networks
      → (networks : Networks) × (o : Outcome) × IsTaken o
        × (check_message g world multi d w
            ≡ settle world.memory
                (message_id g world)
                address
                (retry_request d.curl)
                o
                (waiting_for multi d.curl r networks w))
  unfolding check_message
  check_retries multi address d r w done e a passing running known =
      let (networks, o, taken, same) =
        finish_retries multi address d r (session_json g world r) w passing running known in
      let finished : check_message g world multi d w
          ≡ finish g world multi address d r (session_json g world r) w =
        rw (done, e, check_message) (rw (a, check_message) refl) in
      (networks, o, taken, finished ∙ same)

-- A GetMessages is handed to libcurl again: its parser is new, and what its callbacks keep stays.
abbrev IsRestarted : ℕ → Request → Session → Session → Type 0
IsRestarted curl r w w' =
    (q : Request) × (w'.requests curl ≡ some q)
    × (q.parse ≡ record r.parse { fed = [] })
    × (q.has_server ≡ r.has_server)
    × (w'.address ≡ w.address)
    × (w'.incoming ≡ w.incoming)
    × (w'.lastseen ≡ w.lastseen)

resend_place :
    (curl : ℕ) (target : Str) (r : Request) (w : Session)
    → is_getmessages r.kind ≡ true
    → let w' = resend curl target r w in
      (w'.requests ≡ insert ℕ_discrete curl (retried target w.next_tag r) w.requests)
      × (w'.address ≡ w.address)
      × (w'.incoming ≡ w.incoming)
      × (w'.lastseen ≡ w.lastseen)
unfolding resend
resend_place curl target r w kind = rw kind (refl, refl, refl, refl)

resend-IsRestarted :
    (curl : ℕ) (target : Str) (r : Request) (w : Session)
    → is_getmessages r.kind ≡ true
    → IsRestarted curl r w (resend curl target r w)
resend-IsRestarted curl target r w kind =
    let (requests, place, lines, last) = resend_place curl target r w kind in
    let q = retried target w.next_tag r in
    let parse : q.parse ≡ record r.parse { fed = [] } = rw kind refl in
    (
      q,
      ap (λ t. t curl) requests ∙ insert_self ℕ_discrete curl q w.requests,
      parse,
      refl,
      place,
      lines,
      last,
    )

module _ (g : Glib) (world : World) where
  settle-restarts :
      (multi : Multi) (address : Str) (curl : ℕ) (r : Request) (networks : Networks) (w : Session)
      (o : Outcome)
      → w.requests curl ≡ some r
      → is_getmessages r.kind ≡ true
      → IsTaken o
      → let w' =
          settle world.memory
            (message_id g world)
            address
            (retry_request curl)
            o
            (waiting_for multi curl r networks w) in
        IsRestarted curl r w w' ⊎ (w'.waiting ≡ w.waiting ++ (address, retry_request curl) ∷ [])
  unfolding run_callback stop_timer forget_handle multi_remove
  settle-restarts multi address curl r networks w o e kind (inr (d, waits)) = rw waits (inr refl)
  settle-restarts multi address curl r networks w o e kind (inl (target, made)) =
      let out = waiting_for multi curl r networks w in
      let same : run_callback world.memory (message_id g world) (retry_request curl) target out
          ≡ resend curl target r out =
        rw (e, run_callback) refl in
      rw made
        (inl (subst (IsRestarted curl r w) (sym same) (resend-IsRestarted curl target r out kind)))

module _ (g : Glib) (world : World) (y : Yajl) (address : Str) (cs cs' : List Chunk)
    (ms ms' : List Message) (multi : Multi) (d : Done) (r : Request) (w : Session)
    (ctx : NetworkCtx) (s : Str) (rest : List Str) where
  -- The session when the connection has broken off and the request is taken care of
  abbrev between : Session
  between = check_message g world multi d (receive_chunks g y cs d.curl w)

  -- If a GetMessages receives whole messages, its connection breaks off (with an error that is not
  -- permanent, or without one) and more whole messages follow on the next connection, each in any
  -- chunks, while the session is not cancelled and the network of its server has servers, then either
  -- the request waits for a server, or the lines of both are handed to irssi, each once and in order,
  -- and the session is to resume behind the last of them.
  pub reconnect_delivers :
      w.requests d.curl ≡ some r
      → is_getmessages r.kind ≡ true
      → address_of r w ≡ some address
      → IsIdle (stream_of r.parse w)
      → y.emits (r.parse.fed ++ flat_map bytes_of cs) ≡ y.emits r.parse.fed ++ flat_map tokens_of ms
      → y.emits (flat_map bytes_of cs') ≡ y.emits [] ++ flat_map tokens_of ms'
      → d.is_done ≡ true
      → IsPassing d r
      → w.cancelled ≡ false
      → (receive_chunks g y cs d.curl w).networks (g.strdown address) ≡ some ctx
      → ctx.servers ≡ s ∷ rest
      → (between.waiting ≡ w.waiting ++ (address, retry_request d.curl) ∷ [])
        ⊎ (((receive_chunks g y cs' d.curl between).incoming
              ≡ w.incoming ++ (lines_of ms ++ lines_of ms'))
            × ((receive_chunks g y cs' d.curl between).lastseen
                ≡ position (position w.lastseen ms) ms'))
  reconnect_delivers e kind a idle whole whole' done passing running known some_server =
      let u = receive_chunks g y cs d.curl w in
      let (q, found, same, named, suffix, server, place, going, sent, waiting, lines, seen, idle') =
        stream_lines g y address cs ms d.curl r w e a idle whole in
      let kind' : is_getmessages q.kind ≡ true = ap is_getmessages same ∙ kind in
      let a' : address_of q u ≡ some address = rw (server, place) a in
      let passing' : IsPassing d q = rw same passing in
      let (networks, o, taken, checked) =
        check_retries g world multi address d q u done found a' passing' (going ∙ running)
          (ctx, s, rest, known, some_server) in
      elim (settle-restarts g world multi address d.curl q networks u o found kind' taken) [
        | inr waits ↦ inl (
            ap (λ v. v.waiting) checked
            ∙ waits
            ∙ ap (λ l. l ++ (address, retry_request d.curl) ∷ []) waiting)
        | inl (p, there, parse, served, placed, kept, stays) ↦
            let v = between in
            let found' : v.requests d.curl ≡ some p = ap (λ x. x.requests d.curl) checked ∙ there in
            let b : address_of p v ≡ some address =
              rw (served, ap (λ x. x.address) checked ∙ placed) a' in
            let fresh : p.parse.fed ≡ [] = ap (λ x. x.fed) parse in
            let idle'' : IsIdle (stream_of p.parse v) = record {
              top = ap (λ x. x.depth) parse ∙ idle'.top;
              outside = ap (λ x. x.parsing_servers) parse ∙ idle'.outside;
            } in
            let whole'' : y.emits (p.parse.fed ++ flat_map bytes_of cs')
                ≡ y.emits p.parse.fed ++ flat_map tokens_of ms' =
              rw fresh whole' in
            let (q', x1, x2, x3, x4, x5, x6, x7, x8, x9, lines', seen', x10) =
              stream_lines g y address cs' ms' d.curl p v found' b idle'' whole'' in
            inr (
              lines'
                  ∙ ap (λ l. l ++ lines_of ms') (ap (λ x. x.incoming) checked ∙ kept ∙ lines)
                  ∙ append_assoc w.incoming (lines_of ms) (lines_of ms'),
              seen' ∙ ap (λ l. position l ms') (ap (λ x. x.lastseen) checked ∙ stays ∙ seen),
            )
      ]
