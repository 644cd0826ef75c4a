-- ===== src/Tests/Starts.antt =====
-- The plugin starts without memory for a second multi handle, and its reports with some arguments.
use irssi_robustirc.Base.{◌≡◌, true, false, some, none, All, [], ◌∷◌}
use irssi_robustirc.Base.Text.{codes}
use irssi_robustirc.Session.{curl_handle}
use irssi_robustirc.Formats.{
  gm_write_func_failed, get_messages_failed, create_session_failed, retrying, request_failed,
  request_refused, socket_failed, timeout_failed, connect_failed, send_without_curl,
  send_without_gen, send_without_url,
}
use irssi_robustirc.Formats.Fits.{Fits, report-Fits}
use irssi_robustirc.Startup.{
  unstarted, session_init, core_init, core_init_goes_on, chat_protocol_register,
  command_set_options, signal_add_last, module_register, on_connect_copy, on_disconnected,
}

core_init_goes_on_example :
    let (s, connrecs, calls) = core_init true true false true unstarted in
    (s.handle
      ≡ some (record { socket_multi = curl_handle; max_host_connections = 1; is_pipelined = true }))
    × (s.handle_gm ≡ none)
    × (s.table ≡ none)
    × ((session_init true true false true unstarted).1 ≡ false)
    × (connrecs 5 ≡ none)
    × (calls
        ≡ chat_protocol_register (codes "robustirc") (codes "RobustIRC") (codes "robustirc")
          ∷ command_set_options (codes "connect") (codes "robustirc")
          ∷ signal_add_last (codes "server connect copy") on_connect_copy
          ∷ signal_add_last (codes "server disconnected") on_disconnected
          ∷ module_register (codes "robustirc") (codes "core")
          ∷ [])
core_init_goes_on_example = core_init_goes_on true true false true 5

report-Fits_example : All Fits (
    gm_write_func_failed (codes "x") (codes "lexical error")
    ∷ get_messages_failed
    ∷ create_session_failed (codes "no") (codes "parse error")
    ∷ retrying (codes "/robustirc/v1/session") (codes "a:1") (codes "b:2")
    ∷ request_failed (codes "timeout")
    ∷ request_refused 404
    ∷ socket_failed (codes "bad")
    ∷ timeout_failed (codes "bad")
    ∷ connect_failed
    ∷ send_without_curl
    ∷ send_without_gen
    ∷ send_without_url
    ∷ [])
report-Fits_example =
    report-Fits (codes "x") (codes "lexical error") (codes "no") (codes "parse error")
      (codes "/robustirc/v1/session") (codes "a:1") (codes "b:2") (codes "timeout") (codes "bad")
      404
