-- ===== src/Tests/Creations.antt =====
-- The answer to the CreateSession of the session of Tests.Sessions.
use mathlib.Core.List.{flatten}
use irssi_robustirc.Base.{◌≡◌, refl, false, some, none, inl, List, [], ◌∷◌, arith}
use irssi_robustirc.Base.Text.{Str, Str-discrete, codes, c_string}
use irssi_robustirc.Network.{network_resolve, network_server}
use irssi_robustirc.Session.{curl_handle}
use irssi_robustirc.Completion.{check_message, address_of}
use irssi_robustirc.Teardown.{connect}
use irssi_robustirc.Body.{take, drop}
use irssi_robustirc.Runs.{connects}
use irssi_robustirc.Creation.{ok_done, collect_chunks}
use irssi_robustirc.Creation.Answers.{IsStarted, session_stuck, session_starts}
use irssi_robustirc.Configured.{IsConfigured}
use irssi_robustirc.Authorised.{IsAuthorised, HasSession}
use irssi_robustirc.Authorised.Reach.{reachable-HasSession}
use irssi_robustirc.Policy.{basics}
use irssi_robustirc.Configured.Reach.{reachable-IsConfigured}
use irssi_robustirc.Tests.Ascii.{ascii}
use irssi_robustirc.Tests.Bodies.{junk, length-junk}
use irssi_robustirc.Tests.Sessions.{
  address, ctx, table, world, connrec, answer_text, connected, connected_facts, create_request,
  started, messages_request, messages_found, run,
}

connected_known :
    (connected.networks (ascii.strdown address) ≡ some ctx)
    × (connected.cancelled ≡ false)
    × (address_of create_request connected ≡ some address)
unfolding connect network_resolve ascii Str-discrete network_server
connected_known = (refl, refl, refl)

abbrev halves : List Str
halves = take 20 answer_text ∷ drop 20 answer_text ∷ []

session_starts_example :
    IsStarted ascii world junk length-junk address halves 0 create_request connected
      (c_string (codes "0x13"))
      (c_string (codes "s"))
      (check_message ascii world curl_handle (ok_done 0) (collect_chunks junk halves 0 connected))
unfolding Str-discrete flatten
session_starts_example =
    session_starts ascii world junk length-junk address halves 0 create_request connected
      (codes "0x13") (codes "s") ctx (codes "a:1") (codes "b:2" ∷ []) (connects world connrec table)
      connected_facts.1 refl refl connected_known.2 (omega arith) (omega arith) (omega arith)
      (λ e. cc) refl refl connected_known.1 connected_known.0 refl

-- The server answers with text that is no JSON.
session_stuck_example :
    let w' =
      check_message ascii world curl_handle
        (ok_done 0)
        (collect_chunks junk (codes "no" ∷ []) 0 connected) in
    (w'.requests 0 ≡ none)
    × (w'.sessionid ≡ connected.sessionid)
    × (w'.sent ≡ connected.sent)
    × (w'.waiting ≡ connected.waiting)
    × (w'.connected ≡ connected.connected)
    × (w'.connection_lost ≡ connected.connection_lost)
    × (w'.crashed ≡ connected.crashed)
unfolding Str-discrete flatten
session_stuck_example =
    session_stuck ascii world junk length-junk address (codes "no" ∷ []) 0 create_request connected
      connected_facts.1 refl refl connected_known.2 (omega arith) (omega arith) (omega arith)
      (λ e. cc) (inl refl)

reachable-IsConfigured_example : IsConfigured started.tls_verify started.family messages_request
reachable-IsConfigured_example =
    reachable-IsConfigured ascii started 1 messages_request run messages_found

reachable-HasSession_example :
    IsAuthorised (basics started) × HasSession messages_request.url_suffix messages_request.options
reachable-HasSession_example =
    reachable-HasSession ascii started 1 messages_request run messages_found refl
