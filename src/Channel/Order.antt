-- ===== src/Channel/Order.antt =====
-- Lines that irssi writes one after the other.
use irssi_robustirc.Network.Served.{network_server-head}
use irssi_robustirc.Base.{
  ℕ, ◌≡◌, ◌≢◌, refl, ◌∙◌, true, false, some, List, [], ◌∷◌, ◌++◌, All, ℕ_discrete,
}
use irssi_robustirc.Base.Text.{Str, c_string-line}
use irssi_robustirc.Base.Tables.{insert_self}
use irssi_robustirc.Glib.{Glib}
use irssi_robustirc.Network.{NetworkCtx, Outcome, call, is_available}
use irssi_robustirc.Session.{Session, curl_handle, send_target}
use irssi_robustirc.Completion.{World, message_id, request_server, run_callback, settle}
use irssi_robustirc.Teardown.{send}
use irssi_robustirc.Channel.{Channel, io_write}
use irssi_robustirc.Channel.Writes.{IsPosted, IsHeld}

called-IsPosted :
    (id_of : Str → ℕ) (address line target : Str) (w : Session) (o : Outcome)
    → o ≡ call target
    → let w' = settle true id_of address (send_target line) o w in
      IsPosted id_of target line w w' × (w'.waiting ≡ w.waiting)
unfolding run_callback
called-IsPosted id_of address line target w o made = rw made (
  (
    _,
    insert_self ℕ_discrete w.next_curl _ w.requests,
    refl,
    insert_self ℕ_discrete w.next_curl curl_handle w.attached,
    refl,
    refl,
    refl,
    refl,
    refl,
  ),
  refl,
)

module _ (g : Glib) (world : World) where
  posts_now :
      (address line after : Str) (w : Session) (ctx : NetworkCtx) (s : Str) (rest : List Str)
      → All (λ c. c ≢ 0) line
      → world.memory ≡ true
      → w.cancelled ≡ false
      → w.networks (g.strdown address) ≡ some ctx
      → ctx.servers ≡ s ∷ rest
      → is_available (ctx.backoff s) (world.clock 0) ≡ true
      → let w' = send g world address (line ++ 0 ∷ after) w in
        IsPosted (message_id g world) s line w w' × (w'.waiting ≡ w.waiting)
  unfolding send request_server
  posts_now address line after w ctx s rest clean memory running known some_server up =
      rw (c_string-line line after clean, memory)
        (called-IsPosted (message_id g world) address line s (record w { networks = _ }) _
          (rw running (
            network_server-head g world.clock address world.random w.networks ctx s rest known
              some_server up)))

  -- Lines may overtake each other: if a line is held because no server is up, and irssi writes the
  -- next line when the server at the head of the queue is up again, but before the timer of the first
  -- has run, then the second line is posted at once, and the first is still waiting, not posted. (The
  -- conditions are those of a write.)
  pub later_line_overtakes :
      (channel channel' : Channel) (first second after : Str) (count : ℕ) (ctx : NetworkCtx)
      (s : Str) (rest : List Str)
      → channel'.address ≡ channel.address
      → IsHeld channel.address first channel.session channel'.session
      → All (λ c. c ≢ 0) second
      → world.memory ≡ true
      → channel'.session.cancelled ≡ false
      → channel'.session.networks (g.strdown channel'.address) ≡ some ctx
      → ctx.servers ≡ s ∷ rest
      → is_available (ctx.backoff s) (world.clock 0) ≡ true
      → let w' = (io_write g world channel' (second ++ 0 ∷ after) count).0.session in
        IsPosted (message_id g world) s second channel'.session w'
        × (w'.waiting ≡ channel.session.waiting ++ (channel.address, send_target first) ∷ [])
  unfolding io_write
  later_line_overtakes channel channel' first second after count ctx s rest same (held, _) clean
        memory running known some_server up =
      let (posted, waiting) =
        posts_now channel'.address second after channel'.session ctx s rest clean memory running
          known some_server up in
      (posted, waiting ∙ held)
