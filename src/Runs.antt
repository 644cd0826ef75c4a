-- ===== src/Runs.antt =====
-- The events of a session: calls from the plugin, messages of libcurl, timers of glib. Each is given
-- what its call may find (World), and the order of the events is free.
use irssi_robustirc.Base.{Bool, ℕ, ◌≡◌, ◌⊎◌, true, false, Option, some}
use irssi_robustirc.Base.Text.{Str}
use irssi_robustirc.Glib.{Glib}
use irssi_robustirc.Network.{Networks, resolved}
use irssi_robustirc.Session.{Connrec, Request, Multi, Session, is_getmessages}
use irssi_robustirc.Yajl.{Yajl}
use irssi_robustirc.Receiving.{gm_write_func, receive_body}
use irssi_robustirc.Completion.{World, Done, address_of, server_retry_cb, check_message}
use irssi_robustirc.Teardown.{
  connect, resume_resolved, send, get_messages_timeout, write_only, destroy,
}

-- libcurl gives messages, and runs callbacks, only for handles that are on a multi handle. A
-- GetMessages request that ends still has a server with an address.
pub data Step (g : Glib) (w : Session) : Session → Type 0 where
  -- robustsession_connect_resolved, called by srv_resolved
  resolves : (world : World) (address : Str) → Step g w (resume_resolved g world resolved address w)
  sends : (world : World) (address buffer : Str) → Step g w (send g world address buffer w)
  retries : (world : World) (i : ℕ) → Step g w (server_retry_cb g world i w)
  ends :
      (world : World) (multi : Multi) (d : Done) (r : Request)
      → w.attached d.curl ≡ some multi
      → w.requests d.curl ≡ some r
      → (is_getmessages r.kind ≡ false) ⊎ ((a : Str) × (address_of r w ≡ some a))
      → Step g w (check_message g world multi d w)
  -- gm_write_func for a GetMessages, and write_func for another request
  receives :
      (y : Yajl) (chunk : Str) (size nmemb : ℕ) (multi : Multi) (curl : ℕ) (r : Request)
      → w.attached curl ≡ some multi
      → w.requests curl ≡ some r
      → is_getmessages r.kind ≡ true
      → Step g w (gm_write_func g y chunk size nmemb curl w).0
  collects :
      (junk : ℕ → Str) (memory : Bool) (chunk : Str) (size nmemb curl : ℕ) (r : Request)
      → w.requests curl ≡ some r
      → is_getmessages r.kind ≡ false
      → Step g w (receive_body junk memory chunk size nmemb curl w).0
  times_out : (world : World) (tag : ℕ) → Step g w (get_messages_timeout g world tag w)
  leaves : Step g w (write_only w)
  ends_all : Step g w (destroy w)
  -- The other sessions, and irssi's server record
  outside :
      (networks : Networks) (address : Option Str)
      → Step g w (record w { networks = networks; address = address })

-- The sessions that robustsession_connect and the events lead to.
pub data Reach (g : Glib) : Session → Type 0 where
  connects :
      (world : World) (connrec : Connrec) (networks : Networks)
      → Reach g (connect g world connrec networks).0
  later : {w u : Session} → Reach g w → Step g w u → Reach g u
