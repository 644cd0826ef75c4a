-- ===== src/Channel.antt =====
-- src/core/robustio.c: the GIOChannel that stands for a session, through which irssi writes lines.
-- A GIOChannel is only written and closed; the source of a watch on it is never ready.
pub mod Writes
pub mod Order
use irssi_robustirc.Base.{ℕ, Bool, true, false, Option, none, some}
use irssi_robustirc.Base.Text.{Str}
use irssi_robustirc.Base.Int.{ℤ, pos, negsuc}
use irssi_robustirc.Glib.{Glib}
use irssi_robustirc.Session.{Session}
use irssi_robustirc.Completion.{World}
use irssi_robustirc.Teardown.{send, destroy}

-- The GIOStatus values that the functions return.
pub data Status : Type 0 where
  status_normal status_eof : Status

-- RobustIOChannel: its session, the address of its server, and the fields of GIOChannel that
-- robust_io_channel_new sets.
pub record Channel : Type 0 where
  pub session : Session
  pub address : Str
  pub is_readable : Bool
  pub is_seekable : Bool
  pub is_writeable : Bool
  pub use_buffer : Bool
  pub close_on_unref : Bool

-- robust_io_channel_new, with the session that robustirc_server_init_connect sets
abbrev pub channel_new : Str → Session → Channel
channel_new address session = record {
  session = session;
  address = address;
  is_readable = false;
  is_seekable = false;
  is_writeable = true;
  use_buffer = false;
  close_on_unref = true;
}

-- robust_io_read: the bytes read and the status
abbrev pub io_read : Channel → ℕ → ℕ × Status
io_read channel count = (0, status_eof)

-- robust_io_write: the channel, the bytes written and the status. `buf` is the memory from the
-- pointer on; robustsession_send does not use the count.
unfoldable pub io_write : Glib → World → Channel → Str → ℕ → Channel × ℕ × Status
unfolding send
io_write g world channel buf count = (
  record channel { session = send g world channel.address buf channel.session },
  count,
  status_normal,
)

-- robust_io_close
unfoldable pub io_close : Channel → Channel × Status
unfolding destroy
io_close channel = (record channel { session = destroy channel.session }, status_normal)

-- never_prepare, with the timeout that it sets, never_check and never_dispatch
abbrev pub never_prepare : Bool × ℤ
never_prepare = (false, negsuc 0)

abbrev pub never_check : Bool
never_check = false

abbrev pub never_dispatch : Bool
never_dispatch = true

-- The functions of a GSource that robust_io_create_watch sets; the channel and the condition are
-- not used.
pub record SourceFuncs : Type 0 where
  pub prepare : Bool × ℤ
  pub check : Bool
  pub dispatch : Bool

abbrev pub io_create_watch : SourceFuncs
io_create_watch = record { prepare = never_prepare; check = never_check; dispatch = never_dispatch }

-- robust_io_set_flags, which ignores the flags, and robust_io_get_flags
abbrev pub io_set_flags : Channel → ℕ → Channel × Status
io_set_flags channel flags = (channel, status_normal)

abbrev pub io_get_flags : Channel → ℕ
io_get_flags channel = 0
