-- ===== src/Tests/Channels.antt =====
-- The channel and the plugin's records at concrete inputs.
use irssi_robustirc.Base.Tables.{empty, insert}
use irssi_robustirc.Base.Text.{Str-discrete, c_string, codes}
use irssi_robustirc.Network.{NetworkCtx, network_server, network_resolve, network_succeeded}
use irssi_robustirc.Completion.{World, check_message, message_id, server_retry_cb}
use irssi_robustirc.Teardown.{send, connect}
use irssi_robustirc.Body.{write_func, write_chunk, append_chunk}
use irssi_robustirc.Receiving.{receive_body}
use irssi_robustirc.Channel.Order.{later_line_overtakes}
use irssi_robustirc.Base.{true, false, ◌≡◌, refl, some, [], ◌∷◌, ◌++◌, arith}
use irssi_robustirc.Channel.{Channel, channel_new, io_write, status_normal}
use irssi_robustirc.Channel.Writes.{IsPosted, IsHeld, IsServed, io_write_posts, waiting_line_stays}
use irssi_robustirc.Session.{get_messages, Session, send_target}
use irssi_robustirc.Plugin.{
  Copy, copied, ignored, irc_protocol, robustirc_protocol, new_connrecs, server_init_connect,
  server_connect_copy,
}
use irssi_robustirc.Plugin.Reconnects.{init_connect-copy}
use irssi_robustirc.Tests.Ascii.{ascii}
use irssi_robustirc.Tests.Sessions.{
  address, connrec, world, table, started, started_ctx, table_known, still_running,
}

abbrev channel : Channel
channel = channel_new address started

io_write_posts_example :
    let (channel', written, status) =
      io_write ascii world channel (codes "hi" ++ 0 ∷ codes "x") 2 in
    IsServed ascii world address
      (codes "hi")
      (codes "a:1" ∷ codes "b:2" ∷ [])
      started
      channel'.session
    × (written ≡ 2)
    × (status ≡ status_normal)
io_write_posts_example =
    io_write_posts ascii world channel (codes "hi") (codes "x") 2 started_ctx (codes "a:1")
      (codes "b:2" ∷ []) (omega arith) refl still_running table_known refl

abbrev copy : Copy
copy = record { has_type = false; chat_type = irc_protocol }

init_connect-copy_example :
    let connrecs' = (server_init_connect ascii world connrec table 5 7 new_connrecs).2 in
    let (outcome, after) = server_connect_copy (some (some copy)) true 5 connrecs' in
    (outcome ≡ copied (record { has_type = true; chat_type = robustirc_protocol }) 7)
    × ((server_connect_copy (some (some copy)) true 5 after).0 ≡ ignored)
    × (after 6 ≡ new_connrecs 6)
init_connect-copy_example =
    init_connect-copy ascii world connrec table 5 7 6 copy new_connrecs (omega arith)

abbrev holding : Session
holding = record started { waiting = (address, send_target (codes "hi")) ∷ [] }

waiting_line_stays_example :
    IsServed ascii world address
      (codes "hi")
      (codes "a:1" ∷ codes "b:2" ∷ [])
      (record holding { waiting = [] })
      (server_retry_cb ascii world 0 holding)
waiting_line_stays_example =
    waiting_line_stays ascii world 0 address (codes "hi") [] holding started_ctx (codes "a:1")
      (codes "b:2" ∷ []) refl refl still_running table_known refl

-- Both servers are down until 260.
abbrev down_ctx : NetworkCtx
down_ctx = record {
  servers = codes "a:1" ∷ codes "b:2" ∷ [];
  backoff = λ s. some (record { exponent = 6; next = 260 });
}

abbrev down_channel : Channel
down_channel =
    channel_new address
      (record started { networks = insert Str-discrete (ascii.strdown address) down_ctx empty })

-- A line is written, and another one later.
abbrev holding_channel : Channel
holding_channel = (io_write ascii world down_channel (codes "one" ++ 0 ∷ []) 3).0

abbrev later_world : World
later_world = record world { clock = λ k. 300 }

abbrev turned_ctx : NetworkCtx
turned_ctx = record down_ctx { servers = codes "b:2" ∷ codes "a:1" ∷ [] }

first-IsHeld :
    IsHeld address (codes "one") down_channel.session holding_channel.session
    × (holding_channel.session.networks (ascii.strdown address) ≡ some turned_ctx)
    × (holding_channel.session.cancelled ≡ false)
unfolding io_write send c_string ascii Str-discrete network_server connect network_resolve
    check_message network_succeeded receive_body write_func write_chunk append_chunk
first-IsHeld = ((refl, refl), refl, refl)

later_line_overtakes_example :
    let w' = (io_write ascii later_world holding_channel (codes "two" ++ 0 ∷ []) 3).0.session in
    IsPosted (message_id ascii later_world) (codes "b:2") (codes "two") holding_channel.session w'
    × (w'.waiting ≡ down_channel.session.waiting ++ (address, send_target (codes "one")) ∷ [])
unfolding io_write
later_line_overtakes_example =
    later_line_overtakes ascii later_world down_channel holding_channel (codes "one") (codes "two")
      [] 3 turned_ctx (codes "b:2") (codes "a:1" ∷ []) refl first-IsHeld.0 (omega arith) refl
      first-IsHeld.2 first-IsHeld.1 refl refl

-- The GetMessages waits when the session is left.
abbrev polling : Session
polling = record started { waiting = (address, get_messages) ∷ [] }
