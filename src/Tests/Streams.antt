-- ===== src/Tests/Streams.antt =====
-- A GetMessages stream at the messages of the comment above gm_write_func.
use irssi_robustirc.Base.{◌≡◌, refl, none, some, List, [], ◌∷◌, flat_map}
use irssi_robustirc.Base.Int.{pos}
use irssi_robustirc.Base.Text.{Str, codes, decimal, c_string, eq_ignore_case}
use irssi_robustirc.Network.{network_init}
use irssi_robustirc.Messages.{
  Token, integer, start_map, map_key, end_map, Stream, callbacks, callback, new_stream,
  retry_stream,
}
use irssi_robustirc.Messages.Format.{Message, tokens_of}
use irssi_robustirc.Messages.Delivery.{view, IsIdle, see_all, messages_seen}
use irssi_robustirc.Messages.Stalls.{depth_after, retry_stalls}
use irssi_robustirc.Tests.Ascii.{ascii}

abbrev pub line : Message
line = record {
  id = pos 1428773900924989332;
  reply = pos 1;
  session_id = pos 1428773900606543398;
  session_reply = pos 0;
  kind = pos 3;
  content = codes ":robustirc.net 311 sECuRE";
  servers = none;
}

abbrev pub ping : Message
ping = record {
  id = pos 0;
  reply = pos 0;
  session_id = pos 0;
  session_reply = pos 0;
  kind = pos 4;
  content = [];
  servers = some (codes "localhost:13003" ∷ codes "localhost:13001" ∷ []);
}

start : Stream
start = new_stream 100 (codes "0.0") network_init

start-IsIdle : IsIdle start
unfolding start new_stream
start-IsIdle = record { top = refl; outside = refl }

abbrev address : Str
address = codes "robustirc.net"

abbrev server : Str
server = codes "localhost:13001"

line_arrives :
    (callbacks ascii address server 110 (tokens_of line) start).incoming
    ≡ codes ":robustirc.net 311 sECuRE" ∷ []
unfolding callbacks callback c_string eq_ignore_case start new_stream network_init
line_arrives = refl

line_seen :
    (callbacks ascii address server 110 (tokens_of line) start).lastseen
    ≡ codes "1428773900924989332.1"
unfolding callbacks callback c_string eq_ignore_case start new_stream network_init decimal
line_seen = refl

ping_defers :
    (callbacks ascii address server 130 (flat_map tokens_of (line ∷ ping ∷ [])) start).timeout_at
    ≡ 190
unfolding callbacks callback c_string eq_ignore_case start new_stream network_init flat_map
ping_defers = refl

messages_seen_example :
    (view (callbacks ascii address server 110 (flat_map tokens_of (line ∷ ping ∷ [])) start)
      ≡ see_all ascii address server 110 (line ∷ ping ∷ []) (view start))
    × IsIdle (callbacks ascii address server 110 (flat_map tokens_of (line ∷ ping ∷ [])) start)
messages_seen_example = messages_seen ascii address server 110 (line ∷ ping ∷ []) start start-IsIdle

-- The connection breaks off after the id of a message.
abbrev received : List Token
received =
    start_map
    ∷ map_key (codes "Id")
    ∷ start_map
    ∷ map_key (codes "Id")
    ∷ integer (pos 7)
    ∷ map_key (codes "Reply")
    ∷ integer (pos 1)
    ∷ end_map
    ∷ []

retry_stalls_example :
    let r' =
      callbacks ascii address server 150
        (flat_map tokens_of (line ∷ ping ∷ []))
        (retry_stream 140 (callbacks ascii address server 130 received start)) in
    (r'.incoming ≡ [])
    × (r'.lastseen ≡ codes "0.0")
    × (r'.timeout_at ≡ 200)
    × (r'.networks ≡ network_init)
unfolding start new_stream depth_after
retry_stalls_example =
    retry_stalls ascii address server 130 140 150 0 received (line ∷ ping ∷ []) start refl refl
