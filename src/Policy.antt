-- ===== src/Policy.antt =====
-- Rules on the requests of a session that the places where a request starts follow, and every event
-- keeps. A rule is about what stays the same at a request: its type, its path and the options of
-- its handle.
pub mod Events
pub mod Receives
pub mod Ends
pub mod Reach
use irssi_robustirc.Base.{
  ◌∙◌, ap, ℕ, ◌≡◌, refl, ◌⊎◌, inl, inr, Bool, true, false, Option, none, some, List, [], ◌∷◌, ◌++◌,
  if◌then◌else◌, ℕ_discrete, Bool-cases, Option-cases,
}
use irssi_robustirc.Base.Lists.{All, All-append}
use irssi_robustirc.Base.Text.{Str, codes}
use irssi_robustirc.Base.Tables.{insert, remove, insert-cases, remove-cases}
use irssi_robustirc.Network.{Outcome, unresolved, call, later, dropped, crash}
use irssi_robustirc.Session.{
  Request, RequestType, rt_createsession, rt_postmessage, rt_getmessages, Options, Family,
  resolve_of, printed, Session, is_getmessages, Callback, connect_target, get_messages,
  retry_request, send_target, start_connect, start_get_messages, start_send, start_request,
}
use irssi_robustirc.Completion.{retried, resend, run_callback, settle}

-- What a session knows when it starts a request
pub record Basics : Type 0 where
  pub sessionid : Option Str
  pub headers : List Str
  pub tls_verify : Bool
  pub family : Family

abbrev pub basics : Session → Basics
basics w = record {
  sessionid = w.sessionid;
  headers = w.headers;
  tls_verify = w.tls_verify;
  family = w.family;
}

-- common_options, of these fields only
abbrev pub options_of : Basics → Options
options_of b = record {
  user_agent = codes "irssi-plugin-robustirc v0.6";
  headers = b.headers;
  verify_peer = b.tls_verify;
  timeout = 30;
  connect_timeout = 5;
  resolve = resolve_of b.family;
}

-- The fields after create_session_done
abbrev pub created : Str → Str → Basics → Basics
created id auth b = record b {
  sessionid = some id;
  headers =
      b.headers
      ++ (codes "Accept: application/json"
          ∷ codes "Content-Type: application/json"
          ∷ (codes "X-Session-Auth: " ++ auth)
          ∷ []);
}

-- `session` is about the fields, `request` about a request beside them, and `polls` says when a
-- GetMessages may be asked for.
pub record Policy : Type 1 where
  pub session : Basics → Type 0
  pub request : Basics → RequestType → Str → Options → Type 0
  pub polls : Basics → Type 0
  pub connects :
      (b : Basics)
      → session b
      → request b rt_createsession (codes "/robustirc/v1/session") (options_of b)
  pub sends :
      (b : Basics)
      → session b
      → request b rt_postmessage
          (codes "/robustirc/v1/" ++ (printed b.sessionid ++ codes "/message"))
          (options_of b)
  pub gets :
      (b : Basics)
      → session b
      → polls b
      → request b rt_getmessages
          (codes "/robustirc/v1/" ++ (printed b.sessionid ++ codes "/messages"))
          (record (options_of b) { timeout = 0 })
  pub starts : (id auth : Str) (b : Basics) → session b → session (created id auth b)
  pub starts_polls : (id auth : Str) (b : Basics) → polls (created id auth b)
  pub keeps :
      (id auth : Str) (b : Basics) (kind : RequestType) (suffix : Str) (o : Options)
      → request b kind suffix o
      → request (created id auth b) kind suffix o
  pub polls_again :
      (b : Basics) (kind : RequestType) (suffix : Str) (o : Options)
      → is_getmessages kind ≡ true
      → request b kind suffix o
      → polls b

module _ (p : Policy) where
  abbrev pub IsGood : Basics → Request → Type 0
  IsGood b r = p.request b r.kind r.url_suffix r.options

  abbrev pub AllGood : Basics → (ℕ → Option Request) → Type 0
  AllGood b t = (c : ℕ) (r : Request) → t c ≡ some r → IsGood b r

  -- Whether the callback may be given to robustsession_network_server.
  abbrev pub IsAllowed : Basics → Callback → Type 0
  IsAllowed b connect_target = Unit
  IsAllowed b get_messages = p.polls b
  IsAllowed b (retry_request c) = Unit
  IsAllowed b (send_target s) = Unit

  abbrev pub IsAllowedWaiting : Basics → Str × Callback → Type 0
  IsAllowedWaiting b (address, cb) = IsAllowed b cb

  -- The session, its live requests and the callbacks that wait for a server follow the rules.
  abbrev pub Follows : Session → Type 0
  Follows w =
      p.session (basics w)
      × AllGood (basics w) w.requests
      × All (IsAllowedWaiting (basics w)) w.waiting

  pub add_good :
      (b : Basics) (c : ℕ) (r : Request) (t : ℕ → Option Request)
      → IsGood b r
      → AllGood b t
      → AllGood b (insert ℕ_discrete c r t)
  add_good b c r t good all d q e = elim (insert-cases ℕ_discrete c r t d e) [
    | inl (_, same) ↦ rw (← same) good
    | inr old ↦ all d q old
  ]

  pub drop_good :
      (b : Basics) (c : ℕ) (t : ℕ → Option Request)
      → AllGood b t
      → AllGood b (remove ℕ_discrete c t)
  drop_good b c t all d q e = all d q (remove-cases ℕ_discrete c t d e)

  start_connect-Follows :
      (memory : Bool) (target : Str) (w : Session)
      → Follows w
      → Follows (start_connect memory target w)
  unfolding start_connect
  start_connect-Follows false target w h = h
  start_connect-Follows true target w (s, all, waits) =
      (s, add_good (basics w) w.next_curl _ w.requests (p.connects (basics w) s) all, waits)

  start_send-Follows :
      (memory : Bool) (id : ℕ) (buffer target : Str) (w : Session)
      → Follows w
      → Follows (start_send memory id buffer target w)
  unfolding start_send
  start_send-Follows false id buffer target w h = h
  start_send-Follows true id buffer target w (s, all, waits) =
      (s, add_good (basics w) w.next_curl _ w.requests (p.sends (basics w) s) all, waits)

  start_get_messages-Follows :
      (memory : Bool) (target : Str) (w : Session)
      → p.polls (basics w)
      → Follows w
      → Follows (start_get_messages memory target w)
  unfolding start_get_messages
  start_get_messages-Follows false target w polls h = h
  start_get_messages-Follows true target w polls (s, all, waits) =
      (s, add_good (basics w) w.next_curl _ w.requests (p.gets (basics w) s polls) all, waits)

  resend_fields :
      (curl : ℕ) (target : Str) (r : Request) (w : Session)
      → let w' = resend curl target r w in
        (basics w' ≡ basics w)
        × (w'.waiting ≡ w.waiting)
        × (w'.requests ≡ insert ℕ_discrete curl (retried target w.next_tag r) w.requests)
  unfolding resend
  resend_fields curl target r w = elim (Bool-cases (is_getmessages r.kind)) [
    | inl kind ↦ rw kind (refl, refl, refl)
    | inr kind ↦ rw kind (refl, refl, refl)
  ]

  resend-Follows :
      (curl : ℕ) (target : Str) (r : Request) (w : Session)
      → w.requests curl ≡ some r
      → Follows w
      → Follows (resend curl target r w)
  resend-Follows curl target r w e (s, all, waits) =
      let (same, same_waiting, requests) = resend_fields curl target r w in
      (
        rw same s,
        rw (same, requests) (add_good (basics w) curl _ w.requests (all curl r e) all),
        rw (same, same_waiting) waits,
      )

  pub run_callback-Follows :
      (memory : Bool) (id_of : Str → ℕ) (cb : Callback) (target : Str) (w : Session)
      → IsAllowed (basics w) cb
      → Follows w
      → Follows (run_callback memory id_of cb target w)
  unfolding run_callback
  run_callback-Follows memory id_of connect_target target w allowed h =
      start_connect-Follows memory target w h
  run_callback-Follows memory id_of get_messages target w allowed h =
      start_get_messages-Follows memory target w allowed h
  run_callback-Follows memory id_of (send_target b) target w allowed h =
      start_send-Follows memory (id_of b) b target w h
  run_callback-Follows memory id_of (retry_request c) target w allowed h =
      elim (Option-cases (w.requests c)) [
        | inl gone ↦ rw (gone, run_callback) h
        | inr (r, e) ↦ rw (e, run_callback) (resend-Follows c target r w e h)
      ]

  pub settle-Follows :
      (memory : Bool) (id_of : Str → ℕ) (address : Str) (cb : Callback) (o : Outcome) (w : Session)
      → IsAllowed (basics w) cb
      → Follows w
      → Follows (settle memory id_of address cb o w)
  settle-Follows memory id_of address cb unresolved w allowed h = h
  settle-Follows memory id_of address cb (call t) w allowed h =
      run_callback-Follows memory id_of cb t w allowed h
  settle-Follows memory id_of address cb (later d) w allowed (s, all, waits) =
      (s, all, All-append (IsAllowedWaiting (basics w)) w.waiting _ waits (allowed, tt))
  settle-Follows memory id_of address cb dropped w allowed h = h
  settle-Follows memory id_of address cb crash w allowed h = h
