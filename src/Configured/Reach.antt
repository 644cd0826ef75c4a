-- ===== src/Configured/Reach.antt =====
-- The options of the requests in every session that the events lead to.
use irssi_robustirc.Base.{◌≡◌, refl, ℕ, some}
use irssi_robustirc.Glib.{Glib}
use irssi_robustirc.Session.{Request, Session}
use irssi_robustirc.Runs.{Reach}
use irssi_robustirc.Policy.Reach.{reachable-Follows}
use irssi_robustirc.Configured.{IsConfigured, options_policy}

-- In every session that the events lead to, every request that is not freed verifies the peer
-- exactly if the connection record asks for it, uses the IP version of the connection record, gives
-- a connection 5 seconds, and ends after 30 seconds unless it is a GetMessages, which has no limit.
pub reachable-IsConfigured :
    (g : Glib) (w : Session) (curl : ℕ) (r : Request)
    → Reach g w
    → w.requests curl ≡ some r
    → IsConfigured w.tls_verify w.family r
reachable-IsConfigured g w curl r run e =
    let (c, ((verify, family), all, waits)) =
      reachable-Follows g options_policy (λ c. (refl, refl)) run in
    rw (verify, family) (all curl r e)
