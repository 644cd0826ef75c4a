-- ===== src/Messages/Format.antt =====
-- The messages of the comment above gm_write_func, as the tokens that yajl makes of them, and what
-- the callbacks have stored when only the last brace is missing.
use mathlib.Core.List.{append_assoc, append-nil}
use irssi_robustirc.Base.{
  ℕ, suc, ◌^◌, ◌≡◌, refl, ap, ◌∙◌, true, false, Option, none, some, List, [], ◌∷◌, ◌++◌, map,
}
use irssi_robustirc.Base.Int.{ℤ, pos, to_word}
use irssi_robustirc.Base.Text.{Str, codes, c_string, eq_ignore_case}
use irssi_robustirc.Glib.{Glib}
use irssi_robustirc.Messages.{
  Token, integer, text, start_map, map_key, end_map, start_array, end_array, Stream, callback,
  callbacks,
}

pub record Message : Type 0 where
  pub id : ℤ
  pub reply : ℤ
  pub session_id : ℤ
  pub session_reply : ℤ
  pub kind : ℤ
  pub content : Str
  pub servers : Option (List Str)

-- {"Id": id, "Reply": reply}
abbrev pub id_tokens : ℤ → ℤ → List Token
id_tokens id reply =
    start_map
    ∷ map_key (codes "Id")
    ∷ integer id
    ∷ map_key (codes "Reply")
    ∷ integer reply
    ∷ end_map
    ∷ []

abbrev pub server_tokens : Option (List Str) → List Token
server_tokens none = []
server_tokens (some ss) = map_key (codes "Servers") ∷ start_array ∷ (map text ss ++ end_array ∷ [])

-- A message without its last brace.
abbrev pub field_tokens : Message → List Token
field_tokens m =
    start_map
    ∷ map_key (codes "Id")
    ∷ (id_tokens m.id m.reply
        ++ (map_key (codes "Session")
            ∷ (id_tokens m.session_id m.session_reply
                ++ (map_key (codes "Type")
                    ∷ integer m.kind
                    ∷ map_key (codes "Data")
                    ∷ text m.content
                    ∷ server_tokens m.servers))))

abbrev pub tokens_of : Message → List Token
tokens_of m = field_tokens m ++ end_map ∷ []

-- The servers of the message, or those that an earlier one left.
abbrev pub pending : Option (List Str) → Option (List Str) → Option (List Str)
pending none old = old
pending (some ss) old = some (map c_string ss)

abbrev pub last_key_of : Option (List Str) → Option Str
last_key_of none = some (codes "Data")
last_key_of (some ss) = some (codes "Servers")

-- The fields after a message without its last brace, `n` maps deep before it.
abbrev pub stored : ℕ → Message → Stream → Stream
stored n m r = record r {
  last_key = last_key_of m.servers;
  message_data = some m.content;
  parsing_id = false;
  parsing_servers = false;
  last_id_id = to_word (2 ^ 64) m.id;
  last_id_reply = to_word (2 ^ 64) m.reply;
  last_type = m.kind;
  depth = pos (suc n);
  servers = pending m.servers r.servers;
}

module _ (g : Glib) (address target : Str) where
  pub callbacks-append :
      (now : ℕ) (xs ys : List Token) (r : Stream)
      → callbacks g address target now (xs ++ ys) r
        ≡ callbacks g address target now ys (callbacks g address target now xs r)
  unfolding callbacks
  callbacks-append now [] ys r = refl
  callbacks-append now (x ∷ xs) ys r = callbacks-append now xs ys _

  -- The strings of an array under the key "Servers".
  callbacks-texts :
      (now : ℕ) (ss q : List Str) (r : Stream)
      → callbacks g address target now
          (map text ss)
          (record r { parsing_servers = true; servers = some q })
        ≡ record r { parsing_servers = true; servers = some (q ++ map c_string ss) }
  unfolding callbacks callback
  callbacks-texts now [] q r = rw (append-nil q) refl
  callbacks-texts now (s ∷ ss) q r =
      callbacks-texts now ss (q ++ c_string s ∷ []) r
      ∙ ap (λ (l : List Str). record r { parsing_servers = true; servers = some l })
          (append_assoc q (c_string s ∷ []) (map c_string ss))

  -- The array of servers, at the end of a message.
  server_tokens_lem :
      (now : ℕ) (ss : Option (List Str)) (r : Stream)
      → callbacks g address target now
          (server_tokens ss)
          (record r { last_key = some (codes "Data"); parsing_servers = false })
        ≡ record r {
          last_key = last_key_of ss;
          parsing_servers = false;
          servers = pending ss r.servers;
        }
  unfolding callbacks callback eq_ignore_case c_string
  server_tokens_lem now none r = refl
  server_tokens_lem now (some ss) r =
      callbacks-append now (map text ss) (end_array ∷ []) _
      ∙ ap (callbacks g address target now (end_array ∷ []))
          (callbacks-texts now ss [] (record r { last_key = some (codes "Servers") }))

  pub fields_at :
      (now n : ℕ) (m : Message) (r : Stream)
      → callbacks g address target now
          (field_tokens m)
          (record r { depth = pos n; parsing_servers = false })
        ≡ stored n m r
  unfolding callbacks callback eq_ignore_case c_string
  fields_at now n m r =
      server_tokens_lem now m.servers (record (stored n m r) { servers = r.servers })

  -- The same from any state that is `n` maps deep and outside an array of servers.
  pub fields_lem :
      (now n : ℕ) (m : Message) (r : Stream)
      → r.depth ≡ pos n
      → r.parsing_servers ≡ false
      → callbacks g address target now (field_tokens m) r ≡ stored n m r
  fields_lem now n m r e f =
      ap (callbacks g address target now (field_tokens m))
        (λ i. record r { depth = e i; parsing_servers = f i })
      ∙ fields_at now n m r
