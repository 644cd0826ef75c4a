-- ===== src/Ownership/Polls.antt =====
-- A GetMessages that waits for a server when its session is left.
use irssi_robustirc.Base.{◌≡◌, true, some, [], ◌∷◌, ◌++◌}
use irssi_robustirc.Base.Text.{Str}
use irssi_robustirc.Glib.{Glib}
use irssi_robustirc.Session.{Request, Session, rt_getmessages, curl_handle_gm, url_of}

-- A GetMessages of the session is with libcurl, and may reach the record of its server.
abbrev pub IsPolling : Str → Session → Session → Type 0
IsPolling target w w' =
    (q : Request) × (w'.requests w.next_curl ≡ some q)
    × (q.kind ≡ rt_getmessages)
    × (q.has_server ≡ true)
    × (q.target ≡ target)
    × (w'.attached w.next_curl ≡ some curl_handle_gm)
    × (w'.timers w.next_tag ≡ some w.next_curl)
    × (w'.sent ≡ w.sent ++ (w.next_curl, url_of q w.lastseen) ∷ [])
