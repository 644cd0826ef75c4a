-- ===== src/Startup.antt =====
-- How irssi starts and stops the plugin: src/core/robustirc.c (robustirc_core_init), robustsession_init
-- and robustsession_deinit of src/core/robustsession/robustsession.c, and src/fe-common/fe-robustirc.c. Whether
-- libcurl and GLib give what is asked for are arguments.
use irssi_robustirc.Base.Tables.{empty}
use irssi_robustirc.Base.{
  ◌&&◌, ℕ, ◌≡◌, refl, Bool, true, false, not, Option, none, some, List, [], ◌∷◌, if◌then◌else◌,
}
use irssi_robustirc.Base.Text.{Str, codes}
use irssi_robustirc.Network.{Networks, network_init}
use irssi_robustirc.Session.{Multi, curl_handle, curl_handle_gm}
use irssi_robustirc.Plugin.{Connrecs, new_connrecs}

-- What is set on a multi handle: the handle that its socket callback passes on, the number of
-- connections per host, and whether requests are pipelined.
pub record MultiSetup : Type 0 where
  pub socket_multi : Multi
  pub max_host_connections : ℕ
  pub is_pipelined : Bool

-- The static variables of the two files
pub record Started : Type 0 where
  pub handle : Option MultiSetup
  pub handle_gm : Option MultiSetup
  pub table : Option Networks

-- Before robustsession_init
abbrev pub unstarted : Started
unstarted = record { handle = none; handle_gm = none; table = none }

abbrev pub setup : MultiSetup
setup = record { socket_multi = curl_handle; max_host_connections = 1; is_pipelined = true }

abbrev pub setup_gm : MultiSetup
setup_gm = record { socket_multi = curl_handle_gm; max_host_connections = 1; is_pipelined = false }

-- robustsession_init, with its calls of robustsession_network_init; the arguments say whether
-- curl_global_init, the two curl_multi_init and g_hash_table_new_full succeed.
unfoldable pub session_init : Bool → Bool → Bool → Bool → Started → Started × Bool
session_init global_ok multi_ok gm_ok table_ok s =
    let first = record s { handle = some setup } in
    let second = record first { handle_gm = some setup_gm } in
    if not global_ok
    then (s, false)
    else if not multi_ok
    then (record s { handle = none }, false)
    else if not gm_ok
    then (record first { handle_gm = none }, false)
    else (record second { table = if table_ok then some network_init else none }, table_ok)

-- robustsession_deinit. The variables keep pointers that nothing uses any more, `none` here.
abbrev pub session_deinit : Started → Started
session_deinit s = record s { handle = none; handle_gm = none }

-- The functions that irssi is given
pub data Handler : Type 0 where
  on_connect_copy on_disconnected on_add_fill : Handler

-- What the plugin asks irssi for, with the strings of the chat protocol
pub data IrssiCall : Type 0 where
  chat_protocol_register : Str → Str → Str → IrssiCall
  command_set_options : Str → Str → IrssiCall
  signal_add_last signal_add signal_remove : Str → Handler → IrssiCall
  theme_register : IrssiCall
  module_register : Str → Str → IrssiCall

-- robustirc_core_init
unfoldable pub core_init : Bool → Bool → Bool → Bool → Started → Started × Connrecs × List IrssiCall
unfolding session_init
core_init global_ok multi_ok gm_ok table_ok s = (
  (session_init global_ok multi_ok gm_ok table_ok s).0,
  new_connrecs,
  chat_protocol_register (codes "robustirc") (codes "RobustIRC") (codes "robustirc")
      ∷ command_set_options (codes "connect") (codes "robustirc")
      ∷ signal_add_last (codes "server connect copy") on_connect_copy
      ∷ signal_add_last (codes "server disconnected") on_disconnected
      ∷ module_register (codes "robustirc") (codes "core")
      ∷ [],
)

-- robustirc_core_deinit, which also frees the table of connection records
abbrev pub core_deinit : Started → Started
core_deinit s = session_deinit s

-- fe_robustirc_init and fe_robustirc_deinit
abbrev pub fe_init : List IrssiCall
fe_init =
    signal_add (codes "server add fill") on_add_fill
    ∷ theme_register
    ∷ module_register (codes "robustirc") (codes "fe")
    ∷ []

abbrev pub fe_deinit : List IrssiCall
fe_deinit = signal_remove (codes "server add fill") on_add_fill ∷ []

-- robustsession_init stops at the first thing that libcurl or GLib does not give, and nothing that was
-- made before is undone: the multi handle for all but GetMessages is there exactly if libcurl starts
-- and gives it, with requests in a pipeline, the one for GetMessages exactly if that is there and
-- libcurl gives it too, each with the socket callback that passes on this handle and with one
-- connection per host; the table of networks, empty, exactly if both are there and GLib gives it. It
-- returns true exactly if all of them are there. Whatever it returns, robustirc_core_init has an empty
-- table of connection records and asks irssi for the same: the chat protocol, the option of CONNECT,
-- the two signals and the module.
pub core_init_goes_on :
    (global_ok multi_ok gm_ok table_ok : Bool) (src : ℕ)
    → let (s, connrecs, calls) = core_init global_ok multi_ok gm_ok table_ok unstarted in
      (s.handle ≡ (
        if global_ok && multi_ok
        then some
            (record { socket_multi = curl_handle; max_host_connections = 1; is_pipelined = true })
        else none))
      × (s.handle_gm ≡ (
          if (global_ok && multi_ok) && gm_ok
          then some (record {
            socket_multi = curl_handle_gm;
            max_host_connections = 1;
            is_pipelined = false;
          })
          else none))
      × (s.table ≡ (if ((global_ok && multi_ok) && gm_ok) && table_ok then some empty else none))
      × ((session_init global_ok multi_ok gm_ok table_ok unstarted).1
          ≡ (((global_ok && multi_ok) && gm_ok) && table_ok))
      × (connrecs src ≡ none)
      × (calls
          ≡ chat_protocol_register (codes "robustirc") (codes "RobustIRC") (codes "robustirc")
            ∷ command_set_options (codes "connect") (codes "robustirc")
            ∷ signal_add_last (codes "server connect copy") on_connect_copy
            ∷ signal_add_last (codes "server disconnected") on_disconnected
            ∷ module_register (codes "robustirc") (codes "core")
            ∷ [])
unfolding core_init network_init
core_init_goes_on false multi_ok gm_ok table_ok src = (refl, refl, refl, refl, refl, refl)
core_init_goes_on true false gm_ok table_ok src = (refl, refl, refl, refl, refl, refl)
core_init_goes_on true true false table_ok src = (refl, refl, refl, refl, refl, refl)
core_init_goes_on true true true false src = (refl, refl, refl, refl, refl, refl)
core_init_goes_on true true true true src = (refl, refl, refl, refl, refl, refl)
