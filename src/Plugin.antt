-- ===== src/Plugin.antt =====
-- src/core/robustirc.c and src/fe-common/fe-robustirc.c: how irssi's records of servers come to the plugin. A server record and a
-- connection record are numbers, where the code only compares their addresses.
pub mod Reconnects
use irssi_robustirc.Base.{
  [], ◌∷◌, ℕ, Bool, true, false, not, Option, none, some, ℕ_discrete, if◌then◌else◌,
}
use irssi_robustirc.Base.Tables.{empty, insert, remove}
use irssi_robustirc.Base.Text.{Str, codes}
use irssi_robustirc.Base.Int.{ℤ, pos, negsuc}
use irssi_robustirc.Glib.{Glib}
use irssi_robustirc.Network.{Networks, Resolution}
use irssi_robustirc.Session.{Session, Connrec}
use irssi_robustirc.Completion.{World}
use irssi_robustirc.Teardown.{connect, write_only}
use irssi_robustirc.Channel.{Channel, channel_new}

-- The chat protocols that the plugin sets
pub data ChatType : Type 0 where
  irc_protocol robustirc_protocol : ChatType

-- connrecs, by the address of a SERVER_CONNECT_REC
abbrev pub Connrecs : Type 0
Connrecs = ℕ → Option ℕ

-- What a SERVER_REC has as its `handle->handle`
pub data Handle : Type 0 where
  no_sendbuffer no_handle other_channel : Handle
  robust_channel : Channel → Handle

-- The fields of a SERVER_REC and of its connrec that the plugin sets
pub record Server : Type 0 where
  pub handle : Handle
  pub chat_type : ChatType
  pub no_connect : Bool
  pub connect_pid : ℤ
  pub connect_tag : ℤ

-- The SERVER_CONNECT_REC that irssi copies to: whether `type` is the one of "SERVER CONNECT"
pub record Copy : Type 0 where
  pub has_type : Bool
  pub chat_type : ChatType

-- What robustirc_server_connect_copy comes to. With `copied`, the signal "server reconnect save
-- status" was emitted for the server.
pub data CopyOutcome : Type 0 where
  ignored aborted : CopyOutcome
  copied : Copy → ℕ → CopyOutcome

-- g_hash_table_new of robustirc_core_init
abbrev pub new_connrecs : Connrecs
new_connrecs = empty

-- robustirc_server_init_connect
unfoldable pub server_init_connect :
    Glib → World → Connrec → Networks → ℕ → ℕ → Connrecs → Server × Resolution × Connrecs
unfolding connect
server_init_connect g world connrec networks src server connrecs =
    let (session, resolution) = connect g world connrec networks in
    (
      record {
        handle = robust_channel (channel_new connrec.address session);
        chat_type = irc_protocol;
        no_connect = true;
        connect_pid = negsuc 0;
        connect_tag = pos 1;
      },
      resolution,
      insert ℕ_discrete src server connrecs,
    )

-- robustirc_server_connect_copy of the record `src`. `dest` is none if the pointer is null, and
-- `some none` if what it points to is.
unfoldable pub server_connect_copy :
    Option (Option Copy) → Bool → ℕ → Connrecs → CopyOutcome × Connrecs
server_connect_copy none is_irc src connrecs = (ignored, connrecs)
server_connect_copy (some none) is_irc src connrecs =
    if not is_irc then (ignored, connrecs) else (aborted, connrecs)
server_connect_copy (some (some dest)) is_irc src connrecs =
    if not is_irc then (ignored, connrecs) else elim (connrecs src) [
      | none ↦ (ignored, connrecs)
      | some server ↦ (
        copied (record { has_type = true; chat_type = robustirc_protocol }) server,
        remove ℕ_discrete src connrecs,
      )
    ]

-- robustirc_server_disconnected
unfoldable pub server_disconnected : Handle → Handle
unfolding write_only
server_disconnected no_sendbuffer = no_sendbuffer
server_disconnected no_handle = no_handle
server_disconnected other_channel = other_channel
server_disconnected (robust_channel channel) =
    robust_channel (record channel { session = write_only channel.session })

-- sig_server_add_fill: the chatnet of a server that is added, by the option `robustirc`.
abbrev pub server_add_fill : Option Str → Option Str → Option Str
server_add_fill none chatnet = chatnet
server_add_fill (some []) chatnet = none
server_add_fill (some (c ∷ value)) chatnet = some (codes "robustirc")

-- The QUERY_REC that query_create hands to query_init
pub record QueryRec : Type 0 where
  pub chat_type : ChatType
  pub name : Str
  pub server_tag : Option Str

-- query_create, which gives nothing for a null nick
abbrev pub query_create : Option Str → Option Str → Option QueryRec
query_create server_tag none = none
query_create server_tag (some nick) =
    some (record { chat_type = irc_protocol; name = nick; server_tag = server_tag })
