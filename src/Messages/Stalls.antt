-- ===== src/Messages/Stalls.antt =====
-- A GetMessages connection that breaks off inside a message and is retried: retry_request makes a
-- new parser and keeps `depth`, so the end of no later message brings it back to 0.
use mathlib.Core.List.{append_assoc}
use irssi_robustirc.Base.{
  some_eq, ℕ, zero, suc, ◌+◌, ◌≡◌, refl, ap, ◌∙◌, Bool, false, Option, none, some, List, [], ◌∷◌,
  ◌++◌, map, flat_map, arith,
}
use irssi_robustirc.Base.Int.{ℤ, pos, incr}
use irssi_robustirc.Base.Text.{Str}
use irssi_robustirc.Glib.{Glib}
use irssi_robustirc.Messages.{
  Token, integer, text, start_map, map_key, end_map, start_array, end_array, Stream, callback,
  callbacks, gm_json_integer, gm_json_string, gm_json_start_array, gm_json_end_map, retry_stream,
}
use irssi_robustirc.Messages.Format.{Message, tokens_of, server_tokens, callbacks-append}

-- The depth after the tokens, if it never falls to 0 on the way.
unfoldable pub depth_after : ℕ → List Token → Option ℕ
depth_after n [] = some n
depth_after n (start_map ∷ ts) = depth_after (suc n) ts
depth_after zero (end_map ∷ ts) = none
depth_after (suc zero) (end_map ∷ ts) = none
depth_after (suc (suc n)) (end_map ∷ ts) = depth_after (suc n) ts
depth_after n (integer val ∷ ts) = depth_after n ts
depth_after n (text val ∷ ts) = depth_after n ts
depth_after n (map_key val ∷ ts) = depth_after n ts
depth_after n (start_array ∷ ts) = depth_after n ts
depth_after n (end_array ∷ ts) = depth_after n ts

-- Nothing that irssi or the network table could notice has happened.
pub record IsQuiet (r r' : Stream) : Type 0 where
  pub same_incoming : r'.incoming ≡ r.incoming
  pub same_lastseen : r'.lastseen ≡ r.lastseen
  pub same_timeout : r'.timeout_at ≡ r.timeout_at
  pub same_networks : r'.networks ≡ r.networks

IsQuiet-refl : (r : Stream) → IsQuiet r r
IsQuiet-refl r = record {
  same_incoming = refl;
  same_lastseen = refl;
  same_timeout = refl;
  same_networks = refl;
}

-- The fields by which the parser finds its place may change.
IsQuiet-place :
    (r : Stream) (key : Option Str) (in_id in_servers : Bool) (depth : ℤ)
    → IsQuiet r (record r {
      last_key = key;
      parsing_id = in_id;
      parsing_servers = in_servers;
      depth = depth;
    })
IsQuiet-place r key in_id in_servers depth = record {
  same_incoming = refl;
  same_lastseen = refl;
  same_timeout = refl;
  same_networks = refl;
}

IsQuiet-trans : {r s t : Stream} → IsQuiet r s → IsQuiet s t → IsQuiet r t
IsQuiet-trans p q = record {
  same_incoming = q.same_incoming ∙ p.same_incoming;
  same_lastseen = q.same_lastseen ∙ p.same_lastseen;
  same_timeout = q.same_timeout ∙ p.same_timeout;
  same_networks = q.same_networks ∙ p.same_networks;
}

integer-IsQuiet :
    (val : ℤ) (r : Stream)
    → IsQuiet r (gm_json_integer val r) × ((gm_json_integer val r).depth ≡ r.depth)
unfolding gm_json_integer
integer-IsQuiet val r = ground arith

string-IsQuiet :
    (val : Str) (r : Stream)
    → IsQuiet r (gm_json_string val r) × ((gm_json_string val r).depth ≡ r.depth)
unfolding gm_json_string
string-IsQuiet val r = ground arith

array-IsQuiet :
    (r : Stream) → IsQuiet r (gm_json_start_array r) × ((gm_json_start_array r).depth ≡ r.depth)
unfolding gm_json_start_array
array-IsQuiet r = ground arith

depth_after-texts :
    (n : ℕ) (ss : List Str) (rest : List Token)
    → depth_after n (map text ss ++ rest) ≡ depth_after n rest
unfolding depth_after
depth_after-texts n [] rest = refl
depth_after-texts n (s ∷ ss) rest = depth_after-texts n ss rest

depth_after-servers :
    (n : ℕ) (ss : Option (List Str))
    → depth_after (suc (suc n)) (server_tokens ss ++ end_map ∷ []) ≡ some (suc n)
unfolding depth_after
depth_after-servers n none = refl
depth_after-servers n (some ss) =
    ap (depth_after (suc (suc n))) (append_assoc (map text ss) (end_array ∷ []) (end_map ∷ []))
    ∙ depth_after-texts (suc (suc n)) ss (end_array ∷ end_map ∷ [])

depth_after-message : (n : ℕ) (m : Message) → depth_after (suc n) (tokens_of m) ≡ some (suc n)
unfolding depth_after
depth_after-message n m = depth_after-servers n m.servers

module _ (g : Glib) (address target : Str) where
  end-IsQuiet :
      (now n : ℕ) (r : Stream)
      → r.depth ≡ pos (suc (suc n))
      → IsQuiet r (gm_json_end_map g address target now r)
        × ((gm_json_end_map g address target now r).depth ≡ pos (suc n))
  unfolding gm_json_end_map
  end-IsQuiet now n r e =
      let deep : gm_json_end_map g address target now r
          ≡ record r { parsing_id = false; depth = pos (suc n) } =
        ap (gm_json_end_map g address target now) (λ i. record r { depth = e i }) in
      rw deep (IsQuiet-place r r.last_key false r.parsing_servers (pos (suc n)), refl)

  tokens-IsQuiet :
      (now n k : ℕ) (ts : List Token) (r : Stream)
      → r.depth ≡ pos n
      → depth_after n ts ≡ some k
      → IsQuiet r (callbacks g address target now ts r)
        × ((callbacks g address target now ts r).depth ≡ pos k)
  unfolding callbacks callback depth_after
  tokens-IsQuiet now n k [] r e h = (IsQuiet-refl r, e ∙ ap pos (some_eq h))
  tokens-IsQuiet now n k (start_map ∷ ts) r e h =
      let (rest, end) = tokens-IsQuiet now (suc n) k ts _ (ap incr e) h in
      (IsQuiet-trans (IsQuiet-place r r.last_key _ r.parsing_servers _) rest, end)
  tokens-IsQuiet now zero k (end_map ∷ ts) r e h = cc
  tokens-IsQuiet now (suc zero) k (end_map ∷ ts) r e h = cc
  tokens-IsQuiet now (suc (suc n)) k (end_map ∷ ts) r e h =
      let (quiet, deep) = end-IsQuiet now n r e in
      let (rest, end) = tokens-IsQuiet now (suc n) k ts _ deep h in (IsQuiet-trans quiet rest, end)
  tokens-IsQuiet now n k (integer val ∷ ts) r e h =
      let (quiet, same) = integer-IsQuiet val r in
      let (rest, end) = tokens-IsQuiet now n k ts _ (same ∙ e) h in (IsQuiet-trans quiet rest, end)
  tokens-IsQuiet now n k (text val ∷ ts) r e h =
      let (quiet, same) = string-IsQuiet val r in
      let (rest, end) = tokens-IsQuiet now n k ts _ (same ∙ e) h in (IsQuiet-trans quiet rest, end)
  tokens-IsQuiet now n k (start_array ∷ ts) r e h =
      let (quiet, same) = array-IsQuiet r in
      let (rest, end) = tokens-IsQuiet now n k ts _ (same ∙ e) h in (IsQuiet-trans quiet rest, end)
  tokens-IsQuiet now n k (map_key val ∷ ts) r e h =
      let (rest, end) = tokens-IsQuiet now n k ts _ e h in
      (IsQuiet-trans (IsQuiet-place r _ r.parsing_id r.parsing_servers _) rest, end)
  tokens-IsQuiet now n k (end_array ∷ ts) r e h =
      let (rest, end) = tokens-IsQuiet now n k ts _ e h in
      (IsQuiet-trans (IsQuiet-place r r.last_key r.parsing_id _ _) rest, end)

  messages-IsQuiet :
      (now n : ℕ) (ms : List Message) (r : Stream)
      → r.depth ≡ pos (suc n)
      → IsQuiet r (callbacks g address target now (flat_map tokens_of ms) r)
  unfolding callbacks flat_map
  messages-IsQuiet now n [] r e = IsQuiet-refl r
  messages-IsQuiet now n (m ∷ ms) r e =
      let (quiet, deep) =
        tokens-IsQuiet now (suc n) (suc n) (tokens_of m) r e (depth_after-message n m) in
      rw (callbacks-append g address target now (tokens_of m) (flat_map tokens_of ms) r)
        (IsQuiet-trans quiet (messages-IsQuiet now n ms _ deep))

  -- If a connection breaks off inside a message (the tokens received so far, from the start of a
  -- message, leave some map open) and is retried, then no whole messages that follow are handed to
  -- irssi, move the position to resume at, defer the timeout, or touch the network table.
  pub retry_stalls :
      (now again later n : ℕ) (received : List Token) (ms : List Message) (r : Stream)
      → r.depth ≡ pos 0
      → depth_after 0 received ≡ some (suc n)
      → let r' =
          callbacks g address target later
            (flat_map tokens_of ms)
            (retry_stream again (callbacks g address target now received r)) in
        (r'.incoming ≡ r.incoming)
        × (r'.lastseen ≡ r.lastseen)
        × (r'.timeout_at ≡ again + 60)
        × (r'.networks ≡ r.networks)
  unfolding retry_stream
  retry_stalls now again later n received ms r e h =
      let (before, deep) = tokens-IsQuiet now 0 (suc n) received r e h in
      let after =
        messages-IsQuiet later n ms (retry_stream again (callbacks g address target now received r))
          deep in
      (
        after.same_incoming ∙ before.same_incoming,
        after.same_lastseen ∙ before.same_lastseen,
        after.same_timeout,
        after.same_networks ∙ before.same_networks,
      )
