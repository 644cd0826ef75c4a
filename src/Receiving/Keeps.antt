-- ===== src/Receiving/Keeps.antt =====
-- What libcurl hands over keeps the timers and the owners of the handles right.
use irssi_robustirc.Receiving.{
  put_fed, yajl_parse, callback_at, stream_of, parse_of, put_stream, ends_message, defers, gm_step,
  gm_callback, gm_callbacks, gm_write_func, receive_body, new_tokens,
}
use irssi_robustirc.Body.{take, size_mod, write_func}
use irssi_robustirc.Base.{
  ◌*◌, ◌%◌, ◌++◌, ℕ, ◌≡◌, refl, Bool, true, some, List, [], ◌∷◌, ℕ_discrete, Bool-cases,
  Option-cases, inl, inr,
}
use irssi_robustirc.Base.Text.{Str}
use irssi_robustirc.Base.Tables.{insert, insert_self}
use irssi_robustirc.Glib.{Glib}
use irssi_robustirc.Messages.{Token, callback}
use irssi_robustirc.Yajl.{Yajl}
use irssi_robustirc.Session.{Request, Multi, Session, is_getmessages}
use irssi_robustirc.Completion.{address_of}
use irssi_robustirc.Timers.{keep_request}
use irssi_robustirc.Ownership.{IsWhole, parked, change}
use irssi_robustirc.Ownership.Ends.{restart_timer-IsWhole}

-- A request changes, but for its type and its timer.
change-IsWhole :
    (curl : ℕ) (r r' : Request) (w : Session)
    → w.requests curl ≡ some r
    → r'.kind ≡ r.kind
    → r'.timeout_tag ≡ r.timeout_tag
    → IsWhole w
    → IsWhole (record w { requests = insert ℕ_discrete curl r' w.requests })
change-IsWhole curl r r' w e kind tags (t, h) = (
  keep_request w.requests w.timers w.next_curl w.next_tag curl r r' e kind tags t,
  change w.requests w.attached w.timers (parked w.waiting) w.curl_handles curl r' h,
)

-- A GetMessages that libcurl has.
unfoldable pub IsReceiving : Multi → ℕ → Session → Type 0
IsReceiving multi curl w =
    IsWhole w
    × (w.attached curl ≡ some multi)
    × ((r : Request) × (w.requests curl ≡ some r) × (is_getmessages r.kind ≡ true))

module _ (g : Glib) where
  gm_step-IsReceiving :
      (address : Str) (token : Token) (multi : Multi) (curl : ℕ) (r : Request) (w : Session)
      → w.requests curl ≡ some r
      → is_getmessages r.kind ≡ true
      → w.attached curl ≡ some multi
      → IsWhole w
      → IsReceiving multi curl (gm_step g address token curl r w)
  unfolding gm_step IsReceiving
  gm_step-IsReceiving address token multi curl r w e kind on h =
      let s = callback g address r.target 0 token (stream_of r.parse w) in
      let r' = record r { parse = parse_of r.parse.fed s } in
      let put = put_stream curl r s w in
      let whole : IsWhole put = change-IsWhole curl r r' w e refl refl h in
      let found : put.requests curl ≡ some r' = insert_self ℕ_discrete curl r' w.requests in
      elim (Bool-cases (defers token r.parse)) [
        | inl ping ↦ rw ping (
          restart_timer-IsWhole multi curl r' put on found kind whole,
          on,
          (_, insert_self ℕ_discrete curl _ put.requests, kind),
        )
        | inr other ↦ rw other (whole, on, (r', found, kind))
      ]

  gm_callback-IsReceiving :
      (token : Token) (multi : Multi) (curl : ℕ) (w : Session)
      → IsReceiving multi curl w
      → IsReceiving multi curl (gm_callback g token curl w)
  unfolding gm_callback IsReceiving callback_at
  gm_callback-IsReceiving token multi curl w (h, on, (r, e, kind)) =
      elim (Option-cases (address_of r w)) [
        | inr (address, a) ↦
            rw (e, gm_callback)
              (rw (a, callback_at) (gm_step-IsReceiving address token multi curl r w e kind on h))
        | inl a ↦ elim (Bool-cases (ends_message token r.parse.depth)) [
          | inl ends ↦ rw (e, gm_callback) (rw (a, callback_at) (rw ends (h, on, (r, e, kind))))
          | inr goes_on ↦
              rw (e, gm_callback)
                (rw (a, callback_at)
                  (rw goes_on
                    (rw goes_on at (gm_step-IsReceiving [] token multi curl r w e kind on h))))
        ]
      ]

  pub gm_callbacks-IsReceiving :
      (tokens : List Token) (multi : Multi) (curl : ℕ) (w : Session)
      → IsReceiving multi curl w
      → IsReceiving multi curl (gm_callbacks g tokens curl w)
  unfolding gm_callbacks
  gm_callbacks-IsReceiving [] multi curl w h = h
  gm_callbacks-IsReceiving (t ∷ ts) multi curl w h =
      gm_callbacks-IsReceiving ts multi curl (gm_callback g t curl w)
        (gm_callback-IsReceiving t multi curl w h)

  pub gm_write_func-IsWhole :
      (y : Yajl) (chunk : Str) (size nmemb : ℕ) (multi : Multi) (curl : ℕ) (r : Request)
      (w : Session)
      → w.attached curl ≡ some multi
      → w.requests curl ≡ some r
      → is_getmessages r.kind ≡ true
      → IsWhole w
      → IsWhole (gm_write_func g y chunk size nmemb curl w).0
  unfolding gm_write_func yajl_parse IsReceiving
  gm_write_func-IsWhole y chunk size nmemb multi curl r w on e kind h =
      let new = take (size * nmemb % size_mod) chunk in
      let r' = record r { parse = record r.parse { fed = r.parse.fed ++ new } } in
      rw (e, gm_write_func)
        (rw (e, yajl_parse)
          (gm_callbacks-IsReceiving (new_tokens g y r.parse.fed new) multi curl
            (put_fed curl r (r.parse.fed ++ new) w)
            (
              change-IsWhole curl r r' w e refl refl h,
              on,
              (r', insert_self ℕ_discrete curl r' w.requests, kind),
            )).0)

pub receive_body-IsWhole :
    (junk : ℕ → Str) (memory : Bool) (chunk : Str) (size nmemb curl : ℕ) (r : Request) (w : Session)
    → w.requests curl ≡ some r
    → IsWhole w
    → IsWhole (receive_body junk memory chunk size nmemb curl w).0
unfolding receive_body
receive_body-IsWhole junk memory chunk size nmemb curl r w e h =
    rw (e, receive_body)
      (change-IsWhole curl r
        (record r { body = (write_func junk memory chunk size nmemb r.body).0 }) w e refl refl h)
