-- ===== src/Receiving/Streams.antt =====
-- The callbacks at a request of a session against the stream of Messages, whose clock the session
-- does not keep.
use irssi_robustirc.Messages.{
  robustping, robustirc_to_client, is_type, ping, deliver, Token, integer, text, start_map, map_key,
  end_map, start_array, end_array, Stream, callback, callbacks, gm_json_integer, gm_json_string,
  gm_json_start_array, gm_json_end_map, finish_message,
}
use irssi_robustirc.Receiving.{
  is_positive, decr, ℤ, stream_of, put_stream, defers, gm_step, callback_at, gm_callback,
  gm_callbacks,
}
use irssi_robustirc.Base.{
  ℕ, ◌≡◌, refl, sym, ap, subst, ◌∙◌, false, Option, none, some, List, [], ◌∷◌, inl, inr, Bool-cases,
  ℕ_discrete, arith,
}
use irssi_robustirc.Base.Text.{Str}
use irssi_robustirc.Base.Tables.{insert_self}
use irssi_robustirc.Glib.{Glib}
use irssi_robustirc.Network.{network_succeeded}
use irssi_robustirc.Session.{Request, Session}
use irssi_robustirc.Completion.{address_of}

abbrev pub timeless : Stream → Stream
timeless s = record s { timeout_at = 0 }

timeless-integer :
    (val : ℤ) (s : Stream)
    → timeless (gm_json_integer val (timeless s)) ≡ timeless (gm_json_integer val s)
unfolding gm_json_integer
timeless-integer val s = ground arith

timeless-string :
    (val : Str) (s : Stream)
    → timeless (gm_json_string val (timeless s)) ≡ timeless (gm_json_string val s)
unfolding gm_json_string
timeless-string val s = ground arith

timeless-array :
    (s : Stream) → timeless (gm_json_start_array (timeless s)) ≡ timeless (gm_json_start_array s)
unfolding gm_json_start_array
timeless-array s = ground arith

timeless-deliver :
    (line : Option Str) (s : Stream) → deliver line (timeless s) ≡ timeless (deliver line s)
timeless-deliver none s = refl
timeless-deliver (some line) s = elim (Bool-cases (is_type s.last_type robustirc_to_client)) [
  | inl yes_line ↦ rw yes_line refl
  | inr other ↦ rw other refl
]

module _ (g : Glib) (address target : Str) where
  timeless-ping :
      (now : ℕ) (s : Stream)
      → timeless (ping g address target now (timeless s)) ≡ timeless (ping g address target now s)
  timeless-ping now s = elim (Bool-cases (is_type s.last_type robustping)) [
    | inl pinged ↦ rw pinged refl
    | inr other ↦ rw other refl
  ]

  -- A success is noted for the networks of the stream.
  abbrev succeed : Stream → Stream
  succeed s = record s { networks = network_succeeded g address target s.networks }

  timeless-finish :
      (now : ℕ) (s : Stream)
      → timeless (finish_message g address target now (timeless s))
        ≡ timeless (finish_message g address target now s)
  unfolding finish_message
  timeless-finish now s =
      ap (λ r. timeless (succeed (ping g address target now r))) (timeless-deliver s.message_data s)
      ∙ ap succeed (timeless-ping now (deliver s.message_data s))

  timeless-end :
      (now : ℕ) (s : Stream)
      → timeless (gm_json_end_map g address target now (timeless s))
        ≡ timeless (gm_json_end_map g address target now s)
  unfolding gm_json_end_map
  timeless-end now s =
      let s' = record s { parsing_id = false; depth = decr s.depth } in
      elim (Bool-cases (is_positive (decr s.depth))) [
        | inl deep ↦ rw deep refl
        | inr top ↦ rw top (timeless-finish now s')
      ]

  timeless-callback :
      (now : ℕ) (t : Token) (s : Stream)
      → timeless (callback g address target now t (timeless s))
        ≡ timeless (callback g address target now t s)
  unfolding callback
  timeless-callback now (integer val) s = timeless-integer val s
  timeless-callback now (text val) s = timeless-string val s
  timeless-callback now start_map s = refl
  timeless-callback now (map_key val) s = refl
  timeless-callback now end_map s = timeless-end now s
  timeless-callback now start_array s = timeless-array s
  timeless-callback now end_array s = refl

  timeless-callbacks :
      (now : ℕ) (ts : List Token) (s : Stream)
      → timeless (callbacks g address target now ts (timeless s))
        ≡ timeless (callbacks g address target now ts s)
  unfolding callbacks
  timeless-callbacks now [] s = refl
  timeless-callbacks now (t ∷ ts) s =
      sym (timeless-callbacks now ts (callback g address target now t (timeless s)))
      ∙ ap (λ r. timeless (callbacks g address target now ts r)) (timeless-callback now t s)
      ∙ timeless-callbacks now ts (callback g address target now t s)

  -- The request after some callbacks: at its place, with the state of the stream
  abbrev pub Follows : Stream → ℕ → Request → Session → Session → Type 0
  Follows s curl r w w' =
      (q : Request) × (w'.requests curl ≡ some q)
      × (q.kind ≡ r.kind)
      × (q.target ≡ r.target)
      × (q.url_suffix ≡ r.url_suffix)
      × (q.has_server ≡ r.has_server)
      × (w'.address ≡ w.address)
      × (w'.cancelled ≡ w.cancelled)
      × (w'.sent ≡ w.sent)
      × (w'.waiting ≡ w.waiting)
      × (stream_of q.parse w' ≡ timeless s)

  gm_step-Follows :
      (t : Token) (curl : ℕ) (r : Request) (w : Session)
      → r.target ≡ target
      → Follows
          (callback g address target 0 t (stream_of r.parse w))
          curl
          r
          w
          (gm_step g address t curl r w)
  unfolding gm_step
  gm_step-Follows t curl r w same =
      let s = callback g address r.target 0 t (stream_of r.parse w) in
      let put = put_stream curl r s w in
      let named = ap (λ n. timeless (callback g address n 0 t (stream_of r.parse w))) same in
      elim (Bool-cases (defers t r.parse)) [
        | inl ping ↦ rw ping (
          _,
          insert_self ℕ_discrete curl _ put.requests,
          refl,
          refl,
          refl,
          refl,
          refl,
          refl,
          refl,
          refl,
          named,
        )
        | inr other ↦ rw other (
          _,
          insert_self ℕ_discrete curl _ w.requests,
          refl,
          refl,
          refl,
          refl,
          refl,
          refl,
          refl,
          refl,
          named,
        )
      ]

  gm_callback_step :
      (t : Token) (curl : ℕ) (r : Request) (w : Session)
      → w.requests curl ≡ some r
      → address_of r w ≡ some address
      → gm_callback g t curl w ≡ gm_step g address t curl r w
  unfolding gm_callback callback_at
  gm_callback_step t curl r w e a = rw (e, gm_callback) (rw (a, callback_at) refl)

  pub gm_callbacks-Follows :
      (ts : List Token) (curl : ℕ) (r : Request) (w : Session)
      → w.requests curl ≡ some r
      → r.target ≡ target
      → address_of r w ≡ some address
      → Follows
          (callbacks g address target 0 ts (stream_of r.parse w))
          curl
          r
          w
          (gm_callbacks g ts curl w)
  unfolding gm_callbacks callbacks
  gm_callbacks-Follows [] curl r w e same a =
      (r, e, refl, refl, refl, refl, refl, refl, refl, refl, refl)
  gm_callbacks-Follows (t ∷ ts) curl r w e same a =
      let s = callback g address target 0 t (stream_of r.parse w) in
      let w1 = gm_step g address t curl r w in
      let (q, found, kind, named, suffix, server, place, running, sent, waiting, stream) =
        gm_step-Follows t curl r w same in
      let a' : address_of q w1 ≡ some address = rw (server, place) a in
      let (p, found', kind', named', suffix', server', place', running', sent', waiting', stream') =
        gm_callbacks-Follows ts curl q w1 found (named ∙ same) a' in
      subst (λ u. Follows (callbacks g address target 0 ts s) curl r w (gm_callbacks g ts curl u))
        (sym (gm_callback_step t curl r w e a))
        (
          p,
          found',
          kind' ∙ kind,
          named' ∙ named,
          suffix' ∙ suffix,
          server' ∙ server,
          place' ∙ place,
          running' ∙ running,
          sent' ∙ sent,
          waiting' ∙ waiting,
          stream'
              ∙ ap (λ u. timeless (callbacks g address target 0 ts u)) stream
              ∙ timeless-callbacks 0 ts s,
        )
