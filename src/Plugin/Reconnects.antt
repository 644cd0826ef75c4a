-- ===== src/Plugin/Reconnects.antt =====
-- A reconnect of irssi reaches the plugin again.
use irssi_robustirc.Base.{◌∙◌, ap, ℕ, ◌≡◌, ◌≢◌, refl, true, some, none, ℕ_discrete}
use irssi_robustirc.Base.Tables.{insert, remove, insert_self, insert_ne, remove_self, remove_ne}
use irssi_robustirc.Glib.{Glib}
use irssi_robustirc.Session.{Connrec}
use irssi_robustirc.Network.{Networks}
use irssi_robustirc.Completion.{World}
use irssi_robustirc.Plugin.{
  robustirc_protocol, Connrecs, Copy, ignored, copied, server_init_connect, server_connect_copy,
}

copy-known :
    (src server : ℕ) (dest : Copy) (connrecs : Connrecs)
    → connrecs src ≡ some server
    → server_connect_copy (some (some dest)) true src connrecs ≡ (
      copied (record { has_type = true; chat_type = robustirc_protocol }) server,
      remove ℕ_discrete src connrecs,
    )
unfolding server_connect_copy
copy-known src server dest connrecs e = rw (e, server_connect_copy) refl

copy-unknown :
    (src : ℕ) (dest : Copy) (connrecs : Connrecs)
    → connrecs src ≡ none
    → server_connect_copy (some (some dest)) true src connrecs ≡ (ignored, connrecs)
unfolding server_connect_copy
copy-unknown src dest connrecs e = rw (e, server_connect_copy) refl

-- The connection record that a server of the plugin was made with is copied for a reconnect as one
-- of the plugin's protocol, so that the plugin makes the new server too; once copied it is
-- forgotten, so that a second copy of it is ignored; and the records of other servers stay.
pub init_connect-copy :
    (g : Glib) (world : World) (connrec : Connrec) (networks : Networks) (src server other : ℕ)
    (dest : Copy) (connrecs : Connrecs)
    → src ≢ other
    → let connrecs' = (server_init_connect g world connrec networks src server connrecs).2 in
      let (outcome, after) = server_connect_copy (some (some dest)) true src connrecs' in
      (outcome ≡ copied (record { has_type = true; chat_type = robustirc_protocol }) server)
      × ((server_connect_copy (some (some dest)) true src after).0 ≡ ignored)
      × (after other ≡ connrecs other)
unfolding server_init_connect
init_connect-copy g world connrec networks src server other dest connrecs apart =
    rw
      (copy-known src server dest (insert ℕ_discrete src server connrecs)
        (insert_self ℕ_discrete src server connrecs))
      (
        refl,
        ap (λ p. p.0)
            (copy-unknown src dest (remove ℕ_discrete src (insert ℕ_discrete src server connrecs))
              (remove_self ℕ_discrete src (insert ℕ_discrete src server connrecs))),
        remove_ne ℕ_discrete src (insert ℕ_discrete src server connrecs) other apart
            ∙ insert_ne ℕ_discrete src server connrecs other apart,
      )
