-- ===== src/Receiving/Resume.antt =====
-- Lines that a GetMessages receives, and the request that takes its place when the connection breaks
-- off.
use irssi_robustirc.Retries.{GoesOnAt, IsPassing, failed_request_stays}
use irssi_robustirc.Network.{network_failed, Networks, NetworkCtx}
use irssi_robustirc.Messages.{robustping, Stream, is_type, robustirc_to_client, lastseen_text}
use irssi_robustirc.Base.{
  ℕ, ◌^◌, ◌≡◌, refl, sym, ap, ap₂, subst, ◌∙◌, ◌⊎◌, true, false, some, List, [], ◌∷◌, ◌++◌, inl,
  inr, Bool-cases, flat_map, if◌then◌else◌, ℕ_discrete,
}
use mathlib.Core.List.{append_assoc, append-nil}
use irssi_robustirc.Base.Int.{to_word}
use irssi_robustirc.Base.Text.{Str, codes, c_string}
use irssi_robustirc.Base.Tables.{insert_self}
use irssi_robustirc.Glib.{Glib}
use irssi_robustirc.Yajl.{Yajl}
use irssi_robustirc.Messages.Format.{Message, tokens_of}
use irssi_robustirc.Messages.Delivery.{View, view, IsIdle, see, see_all, messages_seen}
use irssi_robustirc.Session.{Request, Multi, Session, retry_request, is_getmessages, url_of}
use irssi_robustirc.Completion.{World, Done, address_of, check_message}
use irssi_robustirc.Receiving.{stream_of, put_fed, gm_callbacks}
use irssi_robustirc.Receiving.Moves.{fed_request}
use irssi_robustirc.Receiving.Chunks.{
  Chunk, bytes_of, new_tokens_lem, receive_chunks, chunks_join, yajl_parse-some,
}
use irssi_robustirc.Receiving.Streams.{gm_callbacks-Follows}

-- The lines for irssi among the messages
abbrev pub lines_of : List Message → List Str
lines_of [] = []
lines_of (m ∷ ms) =
    let rest = lines_of ms in
    if is_type m.kind robustirc_to_client then c_string m.content ∷ rest else rest

-- The id of the last one of them, or the old position if there is none
abbrev pub position : Str → List Message → Str
position old [] = old
position old (m ∷ ms) =
    position
      (if is_type m.kind robustirc_to_client
        then lastseen_text (to_word (2 ^ 64) m.id) (to_word (2 ^ 64) m.reply)
        else old)
      ms

module _ (g : Glib) (address target : Str) where
  see-lines :
      (now : ℕ) (m : Message) (v : View)
      → ((see g address target now m v).incoming ≡ v.incoming ++ lines_of (m ∷ []))
        × ((see g address target now m v).lastseen ≡ position v.lastseen (m ∷ []))
  unfolding see
  see-lines now m v = elim (Bool-cases (is_type m.kind robustping)) [
    | inl ping ↦ elim (Bool-cases (is_type m.kind robustirc_to_client)) [
      | inl line ↦ rw (ping, line) (refl, refl)
      | inr other ↦ rw (ping, other) (sym (append-nil v.incoming), refl)
    ]
    | inr quiet ↦ elim (Bool-cases (is_type m.kind robustirc_to_client)) [
      | inl line ↦ rw (quiet, line) (refl, refl)
      | inr other ↦ rw (quiet, other) (sym (append-nil v.incoming), refl)
    ]
  ]

  lines_of-cons :
      (m : Message) (ms : List Message) → lines_of (m ∷ []) ++ lines_of ms ≡ lines_of (m ∷ ms)
  lines_of-cons m ms = elim (Bool-cases (is_type m.kind robustirc_to_client)) [
    | inl line ↦ rw line refl
    | inr other ↦ rw other refl
  ]

  see_all-lines :
      (now : ℕ) (ms : List Message) (v : View)
      → ((see_all g address target now ms v).incoming ≡ v.incoming ++ lines_of ms)
        × ((see_all g address target now ms v).lastseen ≡ position v.lastseen ms)
  unfolding see_all
  see_all-lines now [] v = (sym (append-nil v.incoming), refl)
  see_all-lines now (m ∷ ms) v =
      let (lines, last) = see-lines now m v in
      let (lines', last') = see_all-lines now ms (see g address target now m v) in
      (
        lines'
            ∙ ap (λ l. l ++ lines_of ms) lines
            ∙ append_assoc v.incoming (lines_of (m ∷ [])) (lines_of ms)
            ∙ ap (λ l. v.incoming ++ l) (lines_of-cons m ms),
        last' ∙ ap (λ p. position p ms) last,
      )

-- The request after the messages, with the lines and the position that they leave in the session
abbrev pub Received : List Message → ℕ → Request → Session → Session → Type 0
Received ms curl r w w' =
    (q : Request) × (w'.requests curl ≡ some q)
    × (q.kind ≡ r.kind)
    × (q.target ≡ r.target)
    × (q.url_suffix ≡ r.url_suffix)
    × (q.has_server ≡ r.has_server)
    × (w'.address ≡ w.address)
    × (w'.cancelled ≡ w.cancelled)
    × (w'.sent ≡ w.sent)
    × (w'.waiting ≡ w.waiting)
    × (w'.incoming ≡ w.incoming ++ lines_of ms)
    × (w'.lastseen ≡ position w.lastseen ms)
    × IsIdle (stream_of q.parse w')

module _ (g : Glib) (y : Yajl) (address : Str) (cs : List Chunk) (ms : List Message) (curl : ℕ)
    (r : Request) (w : Session) where
  -- If the chunks that a GetMessages receives from the start of a message are whole messages for the
  -- parser, then the lines among them are handed to irssi in their order, and the position to resume
  -- at is the id of the last one. The request stays as it is, between two messages, and no other is
  -- sent or starts to wait.
  pub stream_lines :
      w.requests curl ≡ some r
      → address_of r w ≡ some address
      → IsIdle (stream_of r.parse w)
      → y.emits (r.parse.fed ++ flat_map bytes_of cs) ≡ y.emits r.parse.fed ++ flat_map tokens_of ms
      → Received ms curl r w (receive_chunks g y cs curl w)
  stream_lines e a idle whole =
      let fed = r.parse.fed ++ flat_map bytes_of cs in
      let s = stream_of r.parse w in
      let given = put_fed curl r fed w in
      let joined : receive_chunks g y cs curl w
          ≡ gm_callbacks g (flat_map tokens_of ms) curl given =
        chunks_join g y cs curl r w e
        ∙ yajl_parse-some g y (flat_map bytes_of cs) curl r w e
        ∙ ap (λ ts. gm_callbacks g ts curl given)
            (new_tokens_lem g y r.parse.fed (flat_map bytes_of cs) (flat_map tokens_of ms) whole) in
      let (q, found, kind, named, suffix, server, place, running, sent, waiting, stream) =
        gm_callbacks-Follows g address r.target (flat_map tokens_of ms) curl (fed_request r fed)
          given (insert_self ℕ_discrete curl (fed_request r fed) w.requests) refl a in
      let (seen, idle') = messages_seen g address r.target 0 ms s idle in
      let (lines, last) = see_all-lines g address r.target 0 ms (view s) in
      subst (Received ms curl r w) (sym joined) (
        q,
        found,
        kind,
        named,
        suffix,
        server,
        place,
        running,
        sent,
        waiting,
        ap (λ (t : Stream). t.incoming) stream ∙ ap (λ (v : View). v.incoming) seen ∙ lines,
        ap (λ (t : Stream). t.lastseen) stream ∙ ap (λ (v : View). v.lastseen) seen ∙ last,
        record {
          top = ap (λ (t : Stream). t.depth) stream ∙ idle'.top;
          outside = ap (λ (t : Stream). t.parsing_servers) stream ∙ idle'.outside;
        },
      )

-- The GetMessages is handed to libcurl again, from the position on, or it waits for a server.
abbrev pub IsResumed : Str → Str → ℕ → Request → Session → Session → Type 0
IsResumed address last curl r w w' =
    ((target : Str) × (w'.sent
        ≡ w.sent
          ++ (curl, codes "https://" ++ (target ++ (r.url_suffix ++ (codes "?lastseen=" ++ last))))
            ∷ []))
    ⊎ (w'.waiting ≡ w.waiting ++ (address, retry_request curl) ∷ [])

resent-IsResumed :
    (g : Glib) (world : World) (networks : Networks) (servers : List Str) (address last : Str)
    (curl : ℕ) (r q : Request) (w u w' : Session)
    → is_getmessages q.kind ≡ true
    → q.url_suffix ≡ r.url_suffix
    → u.sent ≡ w.sent
    → u.waiting ≡ w.waiting
    → u.lastseen ≡ last
    → GoesOnAt g world address networks servers curl q u w'
    → IsResumed address last curl r w w'
unfolding url_of
resent-IsResumed g world networks servers address last curl r q w u w' kind suffix sent waiting seen
      (inr (d, later_on, (waits, _, _))) =
    inr (waits ∙ ap (λ l. l ++ (address, retry_request curl) ∷ []) waiting)
resent-IsResumed g world networks servers address last curl r q w u w' kind suffix sent waiting seen
      (inl (target, made, known, (p, found, resent, on, named, same, path, post, body))) =
    let gm : is_getmessages p.kind ≡ true = ap is_getmessages same ∙ kind in
    let url : url_of p u.lastseen
        ≡ codes "https://" ++ (target ++ (r.url_suffix ++ (codes "?lastseen=" ++ last))) =
      rw (gm, named, path, suffix, seen) refl in
    inl (target, resent ∙ ap₂ (λ l x. l ++ (curl, x) ∷ []) sent url)

module _ (g : Glib) (world : World) (y : Yajl) (address : Str) (cs : List Chunk) (ms : List Message)
    (multi : Multi) (d : Done) (r : Request) (w : Session) (ctx : NetworkCtx) (s : Str)
    (rest : List Str) where
  -- If a GetMessages receives whole messages in any chunks, and its connection then breaks off
  -- (with an error that is not permanent, or without one), while the session is not cancelled and
  -- the network of its server has servers, then it is sent again from behind the last line that
  -- irssi has been handed, or waits for a server.
  pub stream_resumes :
      w.requests d.curl ≡ some r
      → is_getmessages r.kind ≡ true
      → address_of r w ≡ some address
      → IsIdle (stream_of r.parse w)
      → y.emits (r.parse.fed ++ flat_map bytes_of cs) ≡ y.emits r.parse.fed ++ flat_map tokens_of ms
      → d.is_done ≡ true
      → IsPassing d r
      → w.cancelled ≡ false
      → (receive_chunks g y cs d.curl w).networks (g.strdown address) ≡ some ctx
      → ctx.servers ≡ s ∷ rest
      → IsResumed address
          (position w.lastseen ms)
          d.curl
          r
          w
          (check_message g world multi d (receive_chunks g y cs d.curl w))
  stream_resumes e kind a idle whole done passing running known some_server =
      let u = receive_chunks g y cs d.curl w in
      let (q, found, same, named, suffix, server, place, going, sent, waiting, lines, seen, idle') =
        stream_lines g y address cs ms d.curl r w e a idle whole in
      let a' : address_of q u ≡ some address = rw (server, place) a in
      let passing' : IsPassing d q = rw same passing in
      resent-IsResumed g world (network_failed g world.now world.rand address q.target u.networks)
        (s ∷ rest) address (position w.lastseen ms) d.curl r q w u (check_message g world multi d u)
        (ap is_getmessages same ∙ kind) suffix sent waiting seen
        (failed_request_stays g world multi d q u address ctx s rest done found a' passing'
          (going ∙ running) known some_server)
