-- ===== src/Policy/Receives.antt =====
-- A callback of the JSON parser, and the bytes that a request gets, keep to the rules.
use irssi_robustirc.Session.{Request, Session}
use irssi_robustirc.Base.{
  ◌%◌, ◌*◌, ℕ, ◌≡◌, refl, inl, inr, some, List, [], ◌∷◌, ◌++◌, ℕ_discrete, Bool-cases, Option-cases,
}
use irssi_robustirc.Base.Text.{Str}
use irssi_robustirc.Base.Tables.{insert_self}
use irssi_robustirc.Glib.{Glib}
use irssi_robustirc.Yajl.{Yajl}
use irssi_robustirc.Body.{take, size_mod}
use irssi_robustirc.Messages.{Token, callback}
use irssi_robustirc.Completion.{address_of}
use irssi_robustirc.Receiving.{
  stream_of, parse_of, put_stream, put_fed, ends_message, defers, new_tokens, gm_step, callback_at,
  gm_callback, gm_callbacks, yajl_parse, gm_write_func,
}
use irssi_robustirc.Policy.{Policy, Follows}
use irssi_robustirc.Policy.Events.{change-Follows}

module _ (p : Policy) where
  module _ (g : Glib) where
    gm_step-Follows :
        (address : Str) (token : Token) (curl : ℕ) (r : Request) (w : Session)
        → w.requests curl ≡ some r
        → Follows p w
        → Follows p (gm_step g address token curl r w)
    unfolding gm_step
    gm_step-Follows address token curl r w e h =
        let s = callback g address r.target 0 token (stream_of r.parse w) in
        let q = record r { parse = parse_of r.parse.fed s } in
        let put = put_stream curl r s w in
        let kept : Follows p put = change-Follows p curl r q w e refl h in
        elim (Bool-cases (defers token r.parse)) [
          | inl ping ↦ rw ping (
              change-Follows p curl q (record q { timeout_tag = w.next_tag }) put
                (insert_self ℕ_discrete curl q w.requests) refl kept)
          | inr other ↦ rw other kept
        ]

    gm_callback-Follows :
        (token : Token) (curl : ℕ) (w : Session)
        → Follows p w
        → Follows p (gm_callback g token curl w)
    unfolding gm_callback callback_at
    gm_callback-Follows token curl w h = elim (Option-cases (w.requests curl)) [
      | inl gone ↦ rw (gone, gm_callback) h
      | inr (r, e) ↦ elim (Option-cases (address_of r w)) [
        | inr (address, a) ↦
            rw (e, gm_callback) (rw (a, callback_at) (gm_step-Follows address token curl r w e h))
        | inl a ↦ elim (Bool-cases (ends_message token r.parse.depth)) [
          | inl end ↦ rw (e, gm_callback) (rw (a, callback_at) (rw end h))
          | inr goes_on ↦
              rw (e, gm_callback)
                (rw (a, callback_at)
                  (rw goes_on (rw goes_on at (gm_step-Follows [] token curl r w e h))))
        ]
      ]
    ]

    gm_callbacks-Follows :
        (ts : List Token) (curl : ℕ) (w : Session)
        → Follows p w
        → Follows p (gm_callbacks g ts curl w)
    unfolding gm_callbacks
    gm_callbacks-Follows [] curl w h = h
    gm_callbacks-Follows (t ∷ ts) curl w h =
        gm_callbacks-Follows ts curl (gm_callback g t curl w) (gm_callback-Follows t curl w h)

    pub gm_write_func-Follows :
        (y : Yajl) (chunk : Str) (size nmemb curl : ℕ) (w : Session)
        → Follows p w
        → Follows p (gm_write_func g y chunk size nmemb curl w).0
    unfolding gm_write_func yajl_parse
    gm_write_func-Follows y chunk size nmemb curl w h = elim (Option-cases (w.requests curl)) [
      | inl gone ↦ rw (gone, gm_write_func) h
      | inr (r, e) ↦
          let new = take (size * nmemb % size_mod) chunk in
          rw (e, gm_write_func)
            (rw (e, yajl_parse)
              (gm_callbacks-Follows (new_tokens g y r.parse.fed new) curl
                (put_fed curl r (r.parse.fed ++ new) w)
                (change-Follows p curl r
                  (record r { parse = record r.parse { fed = r.parse.fed ++ new } }) w e refl h)))
    ]
