-- ===== src/Channel/Writes.antt =====
-- A line that irssi writes becomes the body of a PostMessage.
use mathlib.Core.List.{Mem}
use irssi_robustirc.Network.Served.{network_server-Mem}
use irssi_robustirc.Retries.{answer_for, IsTaken, network_server-IsTaken}
use irssi_robustirc.Network.{call, later, Networks, network_server, NetworkCtx, Outcome}
use irssi_robustirc.Base.{
  Bool, subst, ℕ, ◌≡◌, ◌≢◌, refl, true, false, some, List, [], ◌∷◌, ◌++◌, ◌⊎◌, inl, inr, All,
  ℕ_discrete,
}
use irssi_robustirc.Base.Text.{Str, codes, c_string-line}
use irssi_robustirc.Base.Tables.{insert_self}
use irssi_robustirc.Glib.{Glib}
use irssi_robustirc.Session.{
  Request, rt_postmessage, curl_handle, Session, send_target, url_of, printed, Callback,
}
use irssi_robustirc.Completion.{
  World, message_id, request_server, run_callback, settle, take_waiting, server_retry_cb,
}
use irssi_robustirc.Teardown.{send}
use irssi_robustirc.Channel.{Channel, io_write, status_normal}

-- The line is handed to libcurl as the body of a PostMessage to the target.
abbrev pub IsPosted : (Str → ℕ) → Str → Str → Session → Session → Type 0
IsPosted id_of target line w w' =
    (q : Request) × (w'.requests w.next_curl ≡ some q)
    × (w'.sent ≡ w.sent ++ (w.next_curl, url_of q w.lastseen) ∷ [])
    × (w'.attached w.next_curl ≡ some curl_handle)
    × (w'.curl_handles ≡ w.curl_handles ++ w.next_curl ∷ [])
    × (q.kind ≡ rt_postmessage)
    × (q.target ≡ target)
    × (q.url_suffix ≡ codes "/robustirc/v1/" ++ (printed w.sessionid ++ codes "/message"))
    × (q.post ≡ some (record { line = line; client_message_id = id_of line }))

-- The line waits for a server.
abbrev pub IsHeld : Str → Str → Session → Session → Type 0
IsHeld address line w w' =
    (w'.waiting ≡ w.waiting ++ (address, send_target line) ∷ []) × (w'.sent ≡ w.sent)

-- The line goes on as robustsession_network_server answered.
abbrev pub IsAnswered : (Str → ℕ) → Str → Str → Session → Outcome → Session → Type 0
IsAnswered id_of address line w o w' =
    ((target : Str) × (o ≡ call target)
      × IsPosted id_of target line w w'
      × (w'.waiting ≡ w.waiting))
    ⊎ ((d : ℕ) × (o ≡ later d) × IsHeld address line w w')

-- It is posted to the server that robustsession_network_server gives, one of those in the list, or
-- waits because that gives none.
abbrev pub IsServed : Glib → World → Str → Str → List Str → Session → Session → Type 0
IsServed g world address line servers w w' =
    ((target : Str) × (answer_for g world address w.networks ≡ call target)
      × Mem target servers
      × IsPosted (message_id g world) target line w w'
      × (w'.waiting ≡ w.waiting))
    ⊎ ((d : ℕ) × (answer_for g world address w.networks ≡ later d) × IsHeld address line w w')

settle-IsPosted :
    (id_of : Str → ℕ) (address line : Str) (w : Session) (o : Outcome)
    → IsTaken o
    → IsAnswered id_of address line w o (settle true id_of address (send_target line) o w)
unfolding run_callback
settle-IsPosted id_of address line w o (inl (target, made)) = rw made (
    inl (
      target,
      refl,
      (
        _,
        insert_self ℕ_discrete w.next_curl _ w.requests,
        refl,
        insert_self ℕ_discrete w.next_curl curl_handle w.attached,
        refl,
        refl,
        refl,
        refl,
        refl,
      ),
      refl,
    ))
settle-IsPosted id_of address line w o (inr (d, waits)) = rw waits (inr (d, refl, (refl, refl)))

module _ (g : Glib) (world : World) where
  request_server-posts :
      (address line : Str) (w : Session) (ctx : NetworkCtx) (s : Str) (rest : List Str)
      → world.memory ≡ true
      → w.cancelled ≡ false
      → w.networks (g.strdown address) ≡ some ctx
      → ctx.servers ≡ s ∷ rest
      → IsServed g world address line
          (s ∷ rest)
          w
          (request_server g world address (send_target line) w)
  unfolding request_server
  request_server-posts address line w ctx s rest memory running known some_server =
      let served : Bool → Networks × Outcome =
        λ cancelled. network_server g world.clock cancelled address world.random w.networks in
      let answered : IsAnswered (message_id g world) address line w (served false).1 (
          settle world.memory (message_id g world) address (send_target line) (served w.cancelled).1
            (record w { networks = (served w.cancelled).0 })) =
        rw memory (
          subst
            (λ b. IsAnswered (message_id g world) address line w (served b).1 (
              settle true (message_id g world) address (send_target line) (served w.cancelled).1
                (record w { networks = (served w.cancelled).0 })))
            running
            (settle-IsPosted (message_id g world) address line
              (record w { networks = (served w.cancelled).0 }) (served w.cancelled).1
              (rw running (
                network_server-IsTaken g world.clock address world.random w.networks
                  (ctx, s, rest, known, some_server))))) in
      elim answered [
        | inl (target, made, posted, others) ↦ inl (
          target,
          made,
          network_server-Mem g world.clock address world.random w.networks ctx s rest target known
              some_server made,
          posted,
          others,
        )
        | inr held ↦ inr held
      ]

  send_posts :
      (address line after : Str) (w : Session) (ctx : NetworkCtx) (s : Str) (rest : List Str)
      → All (λ c. c ≢ 0) line
      → world.memory ≡ true
      → w.cancelled ≡ false
      → w.networks (g.strdown address) ≡ some ctx
      → ctx.servers ≡ s ∷ rest
      → IsServed g world address line (s ∷ rest) w (send g world address (line ++ 0 ∷ after) w)
  unfolding send
  send_posts address line after w ctx s rest clean memory running known some_server =
      rw (c_string-line line after clean)
        (request_server-posts address line w ctx s rest memory running known some_server)

  -- A line without a NUL that irssi writes, with a NUL behind it in memory, goes out exactly, if
  -- curl_easy_init and yajl have memory, the session is not cancelled and the network of its server
  -- has servers: if robustsession_network_server gives a server, which is one of the network's queue,
  -- the line is posted at once to that server, with the hash of the line and a random number (modulo
  -- 2^32) as its ClientMessageId; and if it gives none, the line waits. The status is
  -- G_IO_STATUS_NORMAL and the count is reported as written, whatever it is.
  pub io_write_posts :
      (channel : Channel) (line after : Str) (count : ℕ) (ctx : NetworkCtx) (s : Str)
      (rest : List Str)
      → All (λ c. c ≢ 0) line
      → world.memory ≡ true
      → channel.session.cancelled ≡ false
      → channel.session.networks (g.strdown channel.address) ≡ some ctx
      → ctx.servers ≡ s ∷ rest
      → let (channel', written, status) = io_write g world channel (line ++ 0 ∷ after) count in
        IsServed g world channel.address line (s ∷ rest) channel.session channel'.session
        × (written ≡ count)
        × (status ≡ status_normal)
  unfolding io_write
  io_write_posts channel line after count ctx s rest clean memory running known some_server = (
    send_posts channel.address line after channel.session ctx s rest clean memory running known
        some_server,
    refl,
    refl,
  )

  -- When the timer of a line that waits runs, under the conditions of the write, the line is posted
  -- exactly to the server that robustsession_network_server gives, one of the network's queue, or
  -- waits again if it gives none: the line is not lost, and what waits beside it stays.
  pub waiting_line_stays :
      (i : ℕ) (address line : Str) (others : List (Str × Callback)) (w : Session) (ctx : NetworkCtx)
      (s : Str) (rest : List Str)
      → take_waiting i w.waiting ≡ some ((address, send_target line), others)
      → world.memory ≡ true
      → w.cancelled ≡ false
      → w.networks (g.strdown address) ≡ some ctx
      → ctx.servers ≡ s ∷ rest
      → let w' = server_retry_cb g world i w in
        IsServed g world address line (s ∷ rest) (record w { waiting = others }) w'
  unfolding server_retry_cb
  waiting_line_stays i address line others w ctx s rest taken memory running known some_server =
      rw (taken, server_retry_cb)
        (request_server-posts address line (record w { waiting = others }) ctx s rest memory running
          known some_server)
