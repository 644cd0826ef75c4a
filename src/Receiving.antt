-- ===== src/Receiving.antt =====
-- src/core/robustsession/robustsession.c: the bytes that libcurl hands to write_func and
-- gm_write_func, at the request of a session. The callbacks of the JSON parser are those of Messages.
pub mod Keeps
pub mod Moves
pub mod Chunks
pub mod Errors
pub mod Streams
pub mod Resume
pub mod Reconnect
use irssi_robustirc.Base.{
  ℕ, zero, suc, ◌*◌, ◌%◌, Bool, true, false, ◌&&◌, not, Option, none, some, List, [], ◌∷◌, ◌++◌,
  ℕ_discrete, if◌then◌else◌, length,
}
use irssi_robustirc.Base.Int.{ℤ, decr, is_positive}
use irssi_robustirc.Base.Text.{Str, c_string}
use irssi_robustirc.Base.Tables.{insert}
use irssi_robustirc.Glib.{Glib}
use irssi_robustirc.Body.{take, size_mod, write_func}
use irssi_robustirc.Messages.{
  Token, integer, text, start_map, map_key, end_map, start_array, end_array, Stream, callback,
  is_type, robustping,
}
use irssi_robustirc.Yajl.{Yajl}
use irssi_robustirc.Session.{Request, Parse, Session, restart_timer}
use irssi_robustirc.Completion.{crash_session, address_of}

-- What is left of a list behind its first n
abbrev pub drop_tokens : ℕ → List Token → List Token
drop_tokens zero ts = ts
drop_tokens (suc n) [] = []
drop_tokens (suc n) (t ∷ ts) = drop_tokens n ts

-- The state of the callbacks at a request. The session keeps its timers by tags, so the time in it
-- is not used.
abbrev pub stream_of : Parse → Session → Stream
stream_of p w = record {
  last_key = p.last_key;
  message_data = p.message_data;
  parsing_id = p.parsing_id;
  parsing_servers = p.parsing_servers;
  last_id_id = p.last_id_id;
  last_id_reply = p.last_id_reply;
  last_type = p.last_type;
  depth = p.depth;
  servers = p.servers;
  lastseen = w.lastseen;
  incoming = w.incoming;
  timeout_at = 0;
  networks = w.networks;
}

abbrev pub parse_of : Str → Stream → Parse
parse_of fed s = record {
  last_key = s.last_key;
  message_data = s.message_data;
  parsing_id = s.parsing_id;
  parsing_servers = s.parsing_servers;
  last_id_id = s.last_id_id;
  last_id_reply = s.last_id_reply;
  last_type = s.last_type;
  depth = s.depth;
  servers = s.servers;
  fed = fed;
}

-- What the callbacks leave at the request and in the session
abbrev pub put_stream : ℕ → Request → Stream → Session → Session
put_stream curl r s w = record w {
  requests = insert ℕ_discrete curl (record r { parse = parse_of r.parse.fed s }) w.requests;
  lastseen = s.lastseen;
  incoming = s.incoming;
  networks = s.networks;
}

-- The parser has been given other bytes.
abbrev pub put_fed : ℕ → Request → Str → Session → Session
put_fed curl r fed w = record w {
  requests = insert ℕ_discrete curl (record r { parse = record r.parse { fed = fed } }) w.requests;
}

-- Whether gm_json_end_map gets past its early return.
abbrev pub ends_message : Token → ℤ → Bool
ends_message end_map depth = not (is_positive (decr depth))
ends_message _ depth = false

-- Whether it restarts the timer.
abbrev pub defers : Token → Parse → Bool
defers token p = ends_message token p.depth && is_type p.last_type robustping

module _ (g : Glib) where
  -- A callback at a request whose server has the address.
  unfoldable pub gm_step : Str → Token → ℕ → Request → Session → Session
  unfolding restart_timer
  gm_step address token curl r w =
      let s = callback g address r.target 0 token (stream_of r.parse w) in
      let w' = put_stream curl r s w in
      if defers token r.parse
      then restart_timer curl (record r { parse = parse_of r.parse.fed s }) w'
      else w'

  -- A callback. The end of a message reads the address of the server.
  unfoldable pub callback_at : Token → ℕ → Request → Session → Session
  unfolding gm_step
  callback_at token curl r w = elim (address_of r w) [
    | none ↦ if ends_message token r.parse.depth then crash_session w else gm_step [] token curl r w
    | some address ↦ gm_step address token curl r w
  ]

  unfoldable pub gm_callback : Token → ℕ → Session → Session
  unfolding callback_at
  gm_callback token curl w = elim (w.requests curl) [
    | none ↦ crash_session w
    | some r ↦ callback_at token curl r w
  ]

  unfoldable pub gm_callbacks : List Token → ℕ → Session → Session
  unfolding gm_callback
  gm_callbacks [] curl w = w
  gm_callbacks (t ∷ ts) curl w = gm_callbacks ts curl (gm_callback t curl w)

  -- The callbacks that the parser makes for new bytes
  abbrev pub new_tokens : Yajl → Str → Str → List Token
  new_tokens y old new = drop_tokens (length (y.emits old)) (y.emits (old ++ new))

  -- yajl_parse with the parser of a request
  unfoldable pub yajl_parse : Yajl → Str → ℕ → Session → Session
  unfolding gm_callbacks
  yajl_parse y new curl w = elim (w.requests curl) [
    | none ↦ crash_session w
    | some r ↦
        gm_callbacks (new_tokens y r.parse.fed new) curl (put_fed curl r (r.parse.fed ++ new) w)
  ]

  -- The `chunk` of the error message: the memory up to the next NUL, wherever that is
  abbrev pub error_chunk : Yajl → Str → Str → Option Str
  error_chunk y fed chunk = if y.valid fed then none else some (g.strstrip (c_string chunk))

  -- gm_write_func at a chunk of size * nmemb bytes, where `chunk` is the memory from the pointer on:
  -- the number returned, and what is printed.
  unfoldable pub gm_write_func : Yajl → Str → ℕ → ℕ → ℕ → Session → Session × ℕ × Option Str
  unfolding yajl_parse
  gm_write_func y chunk size nmemb curl w = elim (w.requests curl) [
    | none ↦ (crash_session w, 0, none)
    | some r ↦
        let realsize = size * nmemb % size_mod in
        let new = take realsize chunk in
        (yajl_parse y new curl w, realsize, error_chunk y (r.parse.fed ++ new) chunk)
  ]

-- write_func at a request, and the number of bytes taken
unfoldable pub receive_body : (ℕ → Str) → Bool → Str → ℕ → ℕ → ℕ → Session → Session × ℕ
unfolding write_func
receive_body junk memory chunk size nmemb curl w = elim (w.requests curl) [
  | none ↦ (crash_session w, 0)
  | some r ↦
      let (body, taken) = write_func junk memory chunk size nmemb r.body in
      (record w { requests = insert ℕ_discrete curl (record r { body = body }) w.requests }, taken)
]
