-- ===== src/Tests/Receptions.antt =====
-- A GetMessages of the session of Tests.Sessions receives chunks.
use irssi_robustirc.Base.{◌⊎◌, ◌≡◌, refl, inl, some, List, [], ◌∷◌, ◌++◌, flat_map, ◌%◌, ◌*◌}
use irssi_robustirc.Receiving.Reconnect.{reconnect_delivers}
use irssi_robustirc.Session.{retry_request, Request, Session, curl_handle_gm}
use irssi_robustirc.Receiving.Resume.{
  lines_of, Received, stream_lines, IsResumed, position, stream_resumes,
}
use irssi_robustirc.Network.{
  network_failed, NetworkCtx, network_resolve, network_server, network_succeeded,
}
use irssi_robustirc.Base.Text.{Str-discrete, codes, c_string, eq_ignore_case, decimal}
use irssi_robustirc.Base.Tables.{remove}
use irssi_robustirc.Messages.{callback}
use irssi_robustirc.Completion.{check_message}
use irssi_robustirc.Teardown.{connect}
use irssi_robustirc.Body.{size_mod, write_func, write_chunk, append_chunk}
use irssi_robustirc.Receiving.{put_fed, yajl_parse, gm_write_func, gm_callbacks, receive_body}
use irssi_robustirc.Receiving.Chunks.{Chunk, bytes_of, receive_chunks, chunks_join}
use irssi_robustirc.Receiving.Errors.{error_sticks}
use irssi_robustirc.Tests.Ascii.{ascii}
use irssi_robustirc.Tests.Streams.{line, ping}
use irssi_robustirc.Tests.Sessions.{
  address, world, started, started_ctx, messages_request, messages_found, address_known,
  still_running, broken,
}
use irssi_robustirc.Tests.Parser.{letters}

-- A line, and a ping in a chunk with other memory behind it
abbrev chunks : List Chunk
chunks =
    record { memory = codes "L"; size = 1; nmemb = 1 }
    ∷ record { memory = codes "Pxyz"; size = 1; nmemb = 1 }
    ∷ []

chunks_join_example :
    receive_chunks ascii letters chunks 1 started
    ≡ yajl_parse ascii letters (flat_map bytes_of chunks) 1 started
chunks_join_example = chunks_join ascii letters chunks 1 messages_request started messages_found

stream_lines_example :
    Received
      (line ∷ ping ∷ [])
      1
      messages_request
      started
      (receive_chunks ascii letters chunks 1 started)
unfolding flat_map
stream_lines_example =
    stream_lines ascii letters address chunks (line ∷ ping ∷ []) 1 messages_request started
      messages_found address_known (record { top = refl; outside = refl }) refl

-- Only the line arrives.
abbrev one_line : List Chunk
one_line = record { memory = codes "L"; size = 1; nmemb = 1 } ∷ []

-- The state of the network: every message is a success of the server.
abbrev later_ctx : NetworkCtx
later_ctx = record started_ctx { backoff = remove Str-discrete (codes "a:1") started_ctx.backoff }

network_stays :
    (receive_chunks ascii letters one_line 1 started).networks (ascii.strdown address)
    ≡ some later_ctx
unfolding connect network_resolve ascii Str-discrete network_server check_message network_succeeded
    receive_body write_func write_chunk append_chunk c_string receive_chunks gm_write_func
    yajl_parse gm_callbacks callback eq_ignore_case decimal
network_stays = refl

stream_resumes_example :
    IsResumed address (position (codes "0.0") (line ∷ [])) 1 messages_request started (
      check_message ascii world curl_handle_gm broken
        (receive_chunks ascii letters one_line 1 started))
unfolding flat_map
stream_resumes_example =
    stream_resumes ascii world letters address one_line (line ∷ []) curl_handle_gm broken
      messages_request started later_ctx (codes "a:1") (codes "b:2" ∷ []) messages_found refl
      address_known (record { top = refl; outside = refl }) refl refl (inl refl) still_running
      network_stays refl

-- A proxy has sent a page.
abbrev garbled_request : Request
garbled_request = record messages_request {
  parse = record messages_request.parse { fed = codes "<" };
}

abbrev garbled : Session
garbled = (gm_write_func ascii letters (codes "<") 1 1 1 started).0

garbled_found : garbled.requests 1 ≡ some garbled_request
unfolding connect network_resolve ascii Str-discrete network_server check_message network_succeeded
    receive_body write_func write_chunk append_chunk c_string gm_write_func yajl_parse gm_callbacks
garbled_found = refl

error_sticks_example :
    (receive_chunks ascii letters chunks 1 garbled
      ≡ put_fed 1 garbled_request (codes "<" ++ flat_map bytes_of chunks) garbled)
    × ((gm_write_func ascii letters (codes " html> secret") 1 6 1 garbled).1 ≡ 1 * 6 % size_mod)
    × ((gm_write_func ascii letters (codes " html> secret") 1 6 1 garbled).2
        ≡ some (ascii.strstrip (c_string (codes " html> secret"))))
error_sticks_example =
    error_sticks ascii letters chunks (codes " html> secret") 1 6 1 garbled_request garbled
      garbled_found refl

-- The connection breaks off, and the same line comes twice on the next one.
abbrev after_break : Session
after_break =
    check_message ascii world curl_handle_gm broken
      (receive_chunks ascii letters one_line 1 started)

abbrev two_lines : List Chunk
two_lines = record { memory = codes "LL"; size = 1; nmemb = 2 } ∷ []

reconnect_delivers_example :
    (after_break.waiting ≡ started.waiting ++ (address, retry_request 1) ∷ [])
    ⊎ (((receive_chunks ascii letters two_lines 1 after_break).incoming
          ≡ started.incoming ++ (lines_of (line ∷ []) ++ lines_of (line ∷ line ∷ [])))
        × ((receive_chunks ascii letters two_lines 1 after_break).lastseen
            ≡ position (position started.lastseen (line ∷ [])) (line ∷ line ∷ [])))
unfolding flat_map
reconnect_delivers_example =
    reconnect_delivers ascii world letters address one_line two_lines (line ∷ []) (line ∷ line ∷ [])
      curl_handle_gm broken messages_request started later_ctx (codes "a:1") (codes "b:2" ∷ [])
      messages_found refl address_known (record { top = refl; outside = refl }) refl refl refl
      (inl refl) still_running network_stays refl

-- It is not the branch where the request waits.
not_waiting : after_break.waiting ≡ []
unfolding connect network_resolve ascii Str-discrete network_server check_message network_succeeded
    receive_body write_func write_chunk append_chunk c_string receive_chunks gm_write_func
    yajl_parse gm_callbacks callback eq_ignore_case decimal network_failed
not_waiting = refl
