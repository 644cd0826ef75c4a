-- ===== src/Messages.antt =====
-- src/core/robustsession/robustsession.c: the JSON callbacks of a GetMessages request (gm_json_*),
-- which read the stream of messages, and the parts of retry_request that touch their state. The
-- tokens come from yajl, which is not part of this repository.
pub mod Format
pub mod Delivery
pub mod Stalls
use irssi_robustirc.Base.{
  ℕ, zero, suc, ◌+◌, ◌^◌, ◌≡◌, Bool, true, false, ◌&&◌, Option, none, some, List, [], ◌∷◌, ◌++◌,
  map, ltb, leb, ◌==◌, if◌then◌else◌, length,
}
use irssi_robustirc.Base.Int.{ℤ, pos, negsuc, incr, decr, is_positive, to_word}
use irssi_robustirc.Base.Text.{Str, codes, c_string, eq_ignore_case, decimal}
use irssi_robustirc.Glib.{Glib}
use irssi_robustirc.Network.{Networks, update_servers, network_succeeded}

-- The calls of gm_callbacks.
pub data Token : Type 0 where
  integer : ℤ → Token
  text : Str → Token
  start_map : Token
  map_key : Str → Token
  end_map : Token
  start_array : Token
  end_array : Token

-- The fields of struct t_robustirc_request that the callbacks use, `message_data` for `data`; then
-- the `lastseen` of the session, the lines handed to irssi (rawlog and the signal "server
-- incoming"), the time at which get_messages_timeout runs, and the table of networks.
pub record Stream : Type 0 where
  pub last_key : Option Str
  pub message_data : Option Str
  pub parsing_id : Bool
  pub parsing_servers : Bool
  pub last_id_id : ℕ
  pub last_id_reply : ℕ
  pub last_type : ℤ
  pub depth : ℤ
  pub servers : Option (List Str)
  pub lastseen : Str
  pub incoming : List Str
  pub timeout_at : ℕ
  pub networks : Networks

-- `request->last_key && strcasecmp (request->last_key, name) == 0`
abbrev pub key_is : Option Str → Str → Bool
key_is none name = false
key_is (some key) name = eq_ignore_case (c_string key) name

abbrev pub id_key : Str
id_key = codes "id"

abbrev pub reply_key : Str
reply_key = codes "reply"

abbrev pub type_key : Str
type_key = codes "type"

abbrev pub data_key : Str
data_key = codes "data"

abbrev pub servers_key : Str
servers_key = codes "servers"

-- robustirc_to_client and robustping
abbrev pub robustirc_to_client : ℤ
robustirc_to_client = pos 3

abbrev pub robustping : ℤ
robustping = pos 4

abbrev pub is_type : ℤ → ℤ → Bool
is_type (pos m) (pos n) = m == n
is_type (negsuc m) (negsuc n) = m == n
is_type _ _ = false

-- "%" PRIu64 ".%" PRIu64
unfoldable pub lastseen_text : ℕ → ℕ → Str
unfolding decimal
lastseen_text id reply = decimal id ++ (b'.' ∷ decimal reply)

-- gm_json_map_key
unfoldable pub gm_json_map_key : Str → Stream → Stream
gm_json_map_key val r = record r { last_key = some val }

-- The two ids of the map under the key "id".
abbrev pub set_id : ℤ → Stream → Stream
set_id val r =
    if r.parsing_id
    then (if key_is r.last_key id_key
        then record r { last_id_id = to_word (2 ^ 64) val }
        else if key_is r.last_key reply_key
        then record r { last_id_reply = to_word (2 ^ 64) val }
        else r)
    else r

-- gm_json_integer. Without a key no name fits, which is the early return.
unfoldable pub gm_json_integer : ℤ → Stream → Stream
gm_json_integer val r =
    let r' = set_id val r in
    if key_is r'.last_key type_key then record r' { last_type = val } else r'

-- g_queue_push_tail, which leaves a null queue alone.
abbrev pub push_tail : Option (List Str) → Str → Option (List Str)
push_tail none s = none
push_tail (some q) s = some (q ++ s ∷ [])

-- gm_json_string
unfoldable pub gm_json_string : Str → Stream → Stream
gm_json_string val r =
    if r.parsing_servers
    then record r { servers = push_tail r.servers (c_string val) }
    else if key_is r.last_key data_key
    then record r { message_data = some val }
    else r

-- gm_json_start_array
unfoldable pub gm_json_start_array : Stream → Stream
gm_json_start_array r =
    if key_is r.last_key servers_key
    then record r { parsing_servers = true; servers = some [] }
    else r

-- gm_json_end_array
unfoldable pub gm_json_end_array : Stream → Stream
gm_json_end_array r = record r { parsing_servers = false }

-- gm_json_start_map
unfoldable pub gm_json_start_map : Stream → Stream
gm_json_start_map r = record r { parsing_id = key_is r.last_key id_key; depth = incr r.depth }

-- `if (request->data != NULL && request->last_type == robustirc_to_client) { … }`
abbrev pub deliver : Option Str → Stream → Stream
deliver none r = r
deliver (some line) r =
    if is_type r.last_type robustirc_to_client
    then record r {
      incoming = r.incoming ++ c_string line ∷ [];
      message_data = none;
      lastseen = lastseen_text r.last_id_id r.last_id_reply;
    }
    else r

module _ (g : Glib) (address target : Str) where
  -- `if (request->last_type == robustping) { … }`
  abbrev pub ping : ℕ → Stream → Stream
  ping now r =
      if is_type r.last_type robustping
      then record r {
        timeout_at = now + 60;
        networks = update_servers g address r.servers r.networks;
        servers = none;
      }
      else r

  -- The end of a message: what follows the early return of gm_json_end_map.
  unfoldable pub finish_message : ℕ → Stream → Stream
  unfolding lastseen_text
  finish_message now r =
      let r' = ping now (deliver r.message_data r) in
      record r' { networks = network_succeeded g address target r'.networks }

  -- gm_json_end_map
  unfoldable pub gm_json_end_map : ℕ → Stream → Stream
  unfolding finish_message
  gm_json_end_map now r =
      let r' = record r { parsing_id = false; depth = decr r.depth } in
      if is_positive r'.depth then r' else finish_message now r'

  -- The callback of a token, at a time.
  unfoldable pub callback : ℕ → Token → Stream → Stream
  unfolding gm_json_integer gm_json_string gm_json_start_map gm_json_map_key gm_json_end_map
      gm_json_start_array gm_json_end_array
  callback now (integer val) r = gm_json_integer val r
  callback now (text val) r = gm_json_string val r
  callback now start_map r = gm_json_start_map r
  callback now (map_key val) r = gm_json_map_key val r
  callback now end_map r = gm_json_end_map now r
  callback now start_array r = gm_json_start_array r
  callback now end_array r = gm_json_end_array r

  -- The callbacks of a chunk, in the order of its tokens.
  unfoldable pub callbacks : ℕ → List Token → Stream → Stream
  callbacks now [] r = r
  callbacks now (t ∷ ts) r = callbacks now ts (callback now t r)

-- What get_messages starts with: g_new0, and the timer.
unfoldable pub new_stream : ℕ → Str → Networks → Stream
new_stream now lastseen networks = record {
  last_key = none;
  message_data = none;
  parsing_id = false;
  parsing_servers = false;
  last_id_id = 0;
  last_id_reply = 0;
  last_type = pos 0;
  depth = pos 0;
  servers = none;
  lastseen = lastseen;
  incoming = [];
  timeout_at = now + 60;
  networks = networks;
}

-- What retry_request does to a GetMessages request before it is sent again: the yajl handle is
-- new, and the timer starts again. No field that the callbacks keep is reset.
unfoldable pub retry_stream : ℕ → Stream → Stream
retry_stream now r = record r { timeout_at = now + 60 }
