-- ===== src/Retries.antt =====
-- What check_multi_info and retry_request do with a request that failed for now.
use irssi_robustirc.Network.{
  next_backoff, long_max, scan, is_available, BackoffState, NetworkCtx, Networks, Outcome,
  unresolved, call, later, dropped, crash, Search, found, none_before, choose, network_server,
  network_failed,
}
use irssi_robustirc.Base.{
  subst, ◌<◌, ◌≤◌, ℕ, ◌≡◌, refl, ap, ◌∙◌, Bool, true, false, ◌&&◌, ◌||◌, not, Option, some, List,
  [], ◌∷◌, ◌++◌, arith, ℕ_discrete, inl, inr, Bool-cases, ◌⊎◌,
}
use mathlib.Core.List.{Mem}
use irssi_robustirc.Network.Served.{network_server-Mem}
use irssi_robustirc.Completion.{
  session_json, message_id, World, Done, SessionJson, run_callback, settle, request_server, retry,
  finish, check_message, note_result, is_error, is_temporary, address_of, retried, multi_of, resend,
}
use irssi_robustirc.Base.Tables.{insert, insert_self}
use irssi_robustirc.Base.Text.{Str, Str-discrete}
use irssi_robustirc.Body.{no_body}
use irssi_robustirc.Glib.{Glib}
use irssi_robustirc.Session.{
  Request, Multi, retry_request, Session, is_getmessages, url_of, multi_remove, forget_handle,
  stop_timer,
}

-- A network of the table that has a server.
abbrev pub HasServer : Glib → Str → Networks → Type 0
HasServer g address networks =
    (ctx : NetworkCtx) × (s : Str) × (rest : List Str) × (networks (g.strdown address) ≡ some ctx)
    × (ctx.servers ≡ s ∷ rest)

-- A callback that is made now or later.
abbrev pub IsTaken : Outcome → Type 0
IsTaken o = ((t : Str) × (o ≡ call t)) ⊎ ((d : ℕ) × (o ≡ later d))

settle-IsTaken : (x : Search) → IsTaken (irssi_robustirc.Network.settle false x)
settle-IsTaken (found s) = inl (s, refl)
settle-IsTaken (none_before soonest) = inr (_, refl)

choose-IsTaken :
    (backoff : Str → Option BackoffState) (clock : ℕ → ℕ) (s : Str) (rest : List Str)
    → IsTaken (choose backoff clock false (s ∷ rest)).1
unfolding choose
choose-IsTaken backoff clock s rest = elim (Bool-cases (is_available (backoff s) (clock 0))) [
  | inl up ↦ rw (up, choose) (inl (s, refl))
  | inr down ↦
      rw (down, choose) (settle-IsTaken (scan backoff clock 1 long_max [] (rest ++ s ∷ [])).1)
]

pub network_server-IsTaken :
    (g : Glib) (clock : ℕ → ℕ) (address : Str) (random : Bool) (networks : Networks)
    → HasServer g address networks
    → IsTaken (network_server g clock false address random networks).1
unfolding network_server choose
network_server-IsTaken g clock address random networks (ctx, s, rest, e, f) =
    rw (e, network_server) (rw f (choose-IsTaken ctx.backoff clock s rest))

pub network_failed-HasServer :
    (g : Glib) (now rand : ℕ) (address target : Str) (networks : Networks)
    → HasServer g address networks
    → HasServer g address (network_failed g now rand address target networks)
unfolding network_failed
network_failed-HasServer g now rand address target networks (ctx, s, rest, e, f) =
    rw (e, network_failed) (_, s, rest, insert_self Str-discrete (g.strdown address) _ networks, f)

-- The request is handed to libcurl for the target, with the same path and line and without a body.
abbrev pub IsResent : Str → ℕ → Request → Session → Session → Type 0
IsResent target curl r w w' =
    (q : Request) × (w'.requests curl ≡ some q)
    × (w'.sent ≡ w.sent ++ (curl, url_of q w.lastseen) ∷ [])
    × (w'.attached curl ≡ some (multi_of r.kind))
    × (q.target ≡ target)
    × (q.kind ≡ r.kind)
    × (q.url_suffix ≡ r.url_suffix)
    × (q.post ≡ r.post)
    × (q.body ≡ no_body)

-- The request waits for a server, as it is.
abbrev pub IsWaiting : Str → ℕ → Request → Session → Session → Type 0
IsWaiting address curl r w w' =
    (w'.waiting ≡ w.waiting ++ (address, retry_request curl) ∷ [])
    × (w'.requests curl ≡ some r)
    × (w'.sent ≡ w.sent)

-- The request goes on as robustsession_network_server answered.
abbrev pub GoesOn : Str → ℕ → Request → Session → Outcome → Session → Type 0
GoesOn address curl r w o w' =
    ((target : Str) × (o ≡ call target) × IsResent target curl r w w')
    ⊎ ((d : ℕ) × (o ≡ later d) × IsWaiting address curl r w w')

-- The answer for a network of the table, in a session that is not cancelled
abbrev pub answer_for : Glib → World → Str → Networks → Outcome
answer_for g world address networks =
    (network_server g world.clock false address world.random networks).1

-- It is handed to libcurl for the server that robustsession_network_server gives, one of those in
-- the list, or waits because that gives none.
abbrev pub GoesOnAt :
    Glib → World → Str → Networks → List Str → ℕ → Request → Session → Session → Type 0
GoesOnAt g world address networks servers curl r w w' =
    ((target : Str) × (answer_for g world address networks ≡ call target)
      × Mem target servers
      × IsResent target curl r w w')
    ⊎ ((d : ℕ) × (answer_for g world address networks ≡ later d) × IsWaiting address curl r w w')

timed_resend :
    (curl : ℕ) (target : Str) (r : Request) (w : Session)
    → (resend curl target r w).attached ≡ insert ℕ_discrete curl (multi_of r.kind) w.attached
unfolding resend
timed_resend curl target r w = elim (Bool-cases (is_getmessages r.kind)) [
  | inl kind ↦ rw kind refl
  | inr kind ↦ rw kind refl
]

resend-IsResent :
    (curl : ℕ) (target : Str) (r : Request) (w : Session)
    → IsResent target curl r w (resend curl target r w)
unfolding resend
resend-IsResent curl target r w = (
  retried target w.next_tag r,
  insert_self ℕ_discrete curl _ w.requests,
  refl,
  ap (λ t. t curl) (timed_resend curl target r w)
      ∙ insert_self ℕ_discrete curl (multi_of r.kind) w.attached,
  refl,
  refl,
  refl,
  refl,
  refl,
)

settle-retries :
    (memory : Bool) (id_of : Str → ℕ) (address : Str) (curl : ℕ) (r : Request) (w : Session)
    (o : Outcome)
    → w.requests curl ≡ some r
    → IsTaken o
    → GoesOn address curl r w o (settle memory id_of address (retry_request curl) o w)
unfolding run_callback
settle-retries memory id_of address curl r w o e (inl (target, made)) =
    rw made (inl (target, refl, rw (e, run_callback) (resend-IsResent curl target r w)))
settle-retries memory id_of address curl r w o e (inr (d, waits)) =
    rw waits (inr (d, refl, (refl, e, refl)))

-- A request that is retried was noted as failed.
pub failed_noted :
    (error temporary getmessages : Bool)
    → ((error && temporary) || (not error && getmessages)) ≡ true
    → (error || getmessages) ≡ true
failed_noted error temporary getmessages h = ground arith

-- An error of libcurl, a status of the server from 500 to 599, or a GetMessages without an error.
abbrev pub IsPassing : Done → Request → Type 0
IsPassing d r =
    (d.curl_ok ≡ false)
    ⊎ ((500 ≤ d.http_code) × (d.http_code < 600))
    ⊎ ((d.http_code ≡ 200) × (is_getmessages r.kind ≡ true))

pub passing_retried :
    (d : Done) (r : Request)
    → IsPassing d r
    → ((is_error d && is_temporary d) || (not (is_error d) && is_getmessages r.kind)) ≡ true
passing_retried d r passing = ground arith

module _ (g : Glib) (world : World) where
  request_server-retries :
      (address : Str) (curl : ℕ) (r : Request) (w : Session)
      → w.requests curl ≡ some r
      → w.cancelled ≡ false
      → HasServer g address w.networks
      → GoesOn address curl r w
          (answer_for g world address w.networks)
          (request_server g world address (retry_request curl) w)
  unfolding request_server
  request_server-retries address curl r w e running known =
      let served : Bool → Networks × Outcome =
        λ cancelled. network_server g world.clock cancelled address world.random w.networks in
      subst
        (λ b. GoesOn address curl r w (served b).1 (
          settle world.memory (message_id g world) address (retry_request curl)
            (served w.cancelled).1 (record w { networks = (served w.cancelled).0 })))
        running
        (settle-retries world.memory (message_id g world) address curl r
          (record w { networks = (served w.cancelled).0 }) (served w.cancelled).1 e
          (rw running (network_server-IsTaken g world.clock address world.random w.networks known)))

  retry_stays :
      (multi : Multi) (address : Str) (curl : ℕ) (r : Request) (w : Session)
      → w.requests curl ≡ some r
      → w.cancelled ≡ false
      → HasServer g address w.networks
      → GoesOn address curl r w
          (answer_for g world address w.networks)
          (retry g world multi address curl r w)
  unfolding retry
  retry_stays multi address curl r w e running known =
      request_server-retries address curl r
        (stop_timer r (forget_handle curl (multi_remove multi curl w))) e running known

  finish_stays :
      (multi : Multi) (address : Str) (d : Done) (r : Request) (json : SessionJson) (w : Session)
      → w.requests d.curl ≡ some r
      → ((is_error d && is_temporary d) || (not (is_error d) && is_getmessages r.kind)) ≡ true
      → w.cancelled ≡ false
      → HasServer g address w.networks
      → GoesOn address d.curl r w
          (answer_for g world address
            (network_failed g world.now world.rand address r.target w.networks))
          (finish g world multi address d r json w)
  unfolding finish note_result
  finish_stays multi address d r json w e again running known = rw again (
      rw (failed_noted (is_error d) (is_temporary d) (is_getmessages r.kind) again) (
        retry_stays multi address d.curl r
          (record w {
            networks = network_failed g world.now world.rand address r.target w.networks;
          })
          e running
          (network_failed-HasServer g world.now world.rand address r.target w.networks known)))

  -- Noting a failure leaves the queue as it is.
  named_server :
      (address : Str) (r : Request) (networks : Networks) (ctx : NetworkCtx) (s : Str)
      (rest : List Str) (t : Str)
      → networks (g.strdown address) ≡ some ctx
      → ctx.servers ≡ s ∷ rest
      → answer_for g world address (network_failed g world.now world.rand address r.target networks)
        ≡ call t
      → Mem t (s ∷ rest)
  unfolding network_failed
  named_server address r networks ctx s rest t e f made =
      let failed = record ctx {
        backoff =
            insert Str-discrete r.target (next_backoff world.now world.rand (ctx.backoff r.target))
              ctx.backoff;
      } in
      let stored : network_failed g world.now world.rand address r.target networks
            (g.strdown address)
          ≡ some failed =
        rw (e, network_failed) (insert_self Str-discrete (g.strdown address) failed networks) in
      network_server-Mem g world.clock address world.random
        (network_failed g world.now world.rand address r.target networks) failed s rest t stored f
        made

  -- A request that ends with an error that is not permanent (libcurl's own, or a status from 500 to
  -- 599), or a GetMessages request that ends without an error, is not lost, if the network of its
  -- server has servers and the session is not cancelled. The failure of its server is noted. Then,
  -- if robustsession_network_server gives a server, which is one of the network's queue, the request
  -- is handed to libcurl again for that server, with the path and the body that it had (a
  -- GetMessages with the session's last seen message); and if it gives none, the request waits, as
  -- it is.
  pub failed_request_stays :
      (multi : Multi) (d : Done) (r : Request) (w : Session) (address : Str) (ctx : NetworkCtx)
      (s : Str) (rest : List Str)
      → d.is_done ≡ true
      → w.requests d.curl ≡ some r
      → address_of r w ≡ some address
      → IsPassing d r
      → w.cancelled ≡ false
      → w.networks (g.strdown address) ≡ some ctx
      → ctx.servers ≡ s ∷ rest
      → let noted = network_failed g world.now world.rand address r.target w.networks in
        GoesOnAt g world address noted (s ∷ rest) d.curl r w (check_message g world multi d w)
  unfolding check_message
  failed_request_stays multi d r w address ctx s rest done e a passing running known some_server =
      rw (done, e, check_message)
        (rw (a, check_message)
          (elim (finish_stays multi address d r (session_json g world r) w e
            (passing_retried d r passing) running (ctx, s, rest, known, some_server)) [
              | inl (target, made, resent) ↦ inl (
                target,
                made,
                named_server address r w.networks ctx s rest target known some_server made,
                resent,
              )
              | inr waits ↦ inr waits
            ]))
