-- ===== src/Messages/Delivery.antt =====
-- A stream of whole messages against what it is meant to do.
use irssi_robustirc.Base.{
  ℕ, ◌+◌, ◌^◌, ◌≡◌, refl, false, Bool-cases, inl, inr, Option, none, List, [], ◌∷◌, ◌++◌, flat_map,
  if◌then◌else◌,
}
use irssi_robustirc.Base.Int.{pos, to_word}
use irssi_robustirc.Base.Text.{Str, c_string}
use irssi_robustirc.Glib.{Glib}
use irssi_robustirc.Network.{Networks, update_servers, network_succeeded}
use irssi_robustirc.Messages.{
  end_map, Stream, callback, callbacks, is_type, robustirc_to_client, robustping, lastseen_text,
  gm_json_end_map, finish_message,
}
use irssi_robustirc.Messages.Format.{
  Message, tokens_of, field_tokens, pending, stored, fields_lem, callbacks-append,
}

-- What can be seen of a stream: the lines handed to irssi, the position to resume at, the time of
-- the next timeout, the table of networks, and servers that no ping has used yet.
pub record View : Type 0 where
  pub incoming : List Str
  pub lastseen : Str
  pub timeout_at : ℕ
  pub networks : Networks
  pub waiting : Option (List Str)

abbrev pub view : Stream → View
view r = record {
  incoming = r.incoming;
  lastseen = r.lastseen;
  timeout_at = r.timeout_at;
  networks = r.networks;
  waiting = r.servers;
}

-- Between two messages.
pub record IsIdle (r : Stream) : Type 0 where
  pub top : r.depth ≡ pos 0
  pub outside : r.parsing_servers ≡ false

module _ (g : Glib) (address target : Str) where
  -- A line for irssi is handed over, and remembered as the last one seen.
  abbrev pub see_line : Message → View → View
  see_line m v =
      if is_type m.kind robustirc_to_client
      then record v {
        incoming = v.incoming ++ c_string m.content ∷ [];
        lastseen = lastseen_text (to_word (2 ^ 64) m.id) (to_word (2 ^ 64) m.reply);
      }
      else v

  -- A ping defers the timeout, and its servers update the network.
  abbrev pub see_ping : ℕ → Message → View → View
  see_ping now m v =
      let servers = pending m.servers v.waiting in
      if is_type m.kind robustping
      then record v {
        timeout_at = now + 60;
        networks = update_servers g address servers v.networks;
        waiting = none;
      }
      else record v { waiting = servers }

  -- What a message is meant to do. Any message is a success of the server.
  unfoldable pub see : ℕ → Message → View → View
  see now m v =
      let v' = see_ping now m (see_line m v) in
      record v' { networks = network_succeeded g address target v'.networks }

  unfoldable pub see_all : ℕ → List Message → View → View
  see_all now [] v = v
  see_all now (m ∷ ms) v = see_all now ms (see now m v)

  finish_stored :
      (now : ℕ) (m : Message) (r : Stream)
      → (view (gm_json_end_map g address target now (stored 0 m r)) ≡ see now m (view r))
        × IsIdle (gm_json_end_map g address target now (stored 0 m r))
  unfolding gm_json_end_map finish_message see
  finish_stored now m r = elim (Bool-cases (is_type m.kind robustirc_to_client)) [
    | inl line ↦ elim (Bool-cases (is_type m.kind robustping)) [
      | inl ping ↦ rw (line, ping) (refl, record { top = refl; outside = refl })
      | inr no_ping ↦ rw (line, no_ping) (refl, record { top = refl; outside = refl })
    ]
    | inr no_line ↦ elim (Bool-cases (is_type m.kind robustping)) [
      | inl ping ↦ rw (no_line, ping) (refl, record { top = refl; outside = refl })
      | inr no_ping ↦ rw (no_line, no_ping) (refl, record { top = refl; outside = refl })
    ]
  ]

  pub message_seen :
      (now : ℕ) (m : Message) (r : Stream)
      → IsIdle r
      → (view (callbacks g address target now (tokens_of m) r) ≡ see now m (view r))
        × IsIdle (callbacks g address target now (tokens_of m) r)
  unfolding callbacks callback
  message_seen now m r idle =
      rw
        (
          callbacks-append g address target now (field_tokens m) (end_map ∷ []) r,
          fields_lem g address target now 0 m r idle.top idle.outside,
        )
        (finish_stored now m r)

  -- From the start of a message, the callbacks of any sequence of whole messages do what the
  -- messages are meant to do, in order, and end at the start of a message.
  pub messages_seen :
      (now : ℕ) (ms : List Message) (r : Stream)
      → IsIdle r
      → (view (callbacks g address target now (flat_map tokens_of ms) r) ≡ see_all now ms (view r))
        × IsIdle (callbacks g address target now (flat_map tokens_of ms) r)
  unfolding callbacks see_all flat_map
  messages_seen now [] r idle = (refl, idle)
  messages_seen now (m ∷ ms) r idle =
      let (seen, idle') = message_seen now m r idle in
      rw (callbacks-append g address target now (tokens_of m) (flat_map tokens_of ms) r, ← seen)
        (messages_seen now ms (callbacks g address target now (tokens_of m) r) idle')
