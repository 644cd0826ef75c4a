-- ===== src/Authorised/Reach.antt =====
-- The session id and the secret in every session that the events lead to.
use irssi_robustirc.Base.{◌≡◌, ℕ, some, true}
use irssi_robustirc.Glib.{Glib}
use irssi_robustirc.Session.{Request, Session, is_getmessages}
use irssi_robustirc.Runs.{Reach}
use irssi_robustirc.Policy.{basics}
use irssi_robustirc.Policy.Reach.{reachable-Follows}
use irssi_robustirc.Authorised.{IsAuthorised, HasSession, auth_policy}

-- In every session that the events lead to, while a GetMessages is not freed the session has an id,
-- and the session's headers end in an X-Session-Auth header; the path of the request is
-- /robustirc/v1/<some id>/messages, and the headers that its own handle was given end in an
-- X-Session-Auth header as well.
pub reachable-HasSession :
    (g : Glib) (w : Session) (curl : ℕ) (r : Request)
    → Reach g w
    → w.requests curl ≡ some r
    → is_getmessages r.kind ≡ true
    → IsAuthorised (basics w) × HasSession r.url_suffix r.options
reachable-HasSession g w curl r run e gets =
    let (c, (s, all, waits)) = reachable-Follows g (λ c. auth_policy) (λ c. tt) run in
    all curl r e gets
