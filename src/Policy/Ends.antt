-- ===== src/Policy/Ends.antt =====
-- The timeout of GetMessages and the ends of a session keep to the rules.
use irssi_robustirc.Base.{
  true, ℕ, ◌≡◌, refl, inl, inr, false, Option, none, some, List, [], ◌∷◌, ℕ_discrete, Bool-cases,
  Option-cases,
}
use irssi_robustirc.Session.{
  source_remove, Request, Session, is_getmessages, get_messages, forget_handle, multi_remove,
  curl_handle, curl_handle_gm,
}
use irssi_robustirc.Teardown.{
  note_timeout, start_again, time_out, get_messages_timeout, abort_request, write_only_loop,
  destroy_loop, destroy,
}
use irssi_robustirc.Base.Text.{Str}
use irssi_robustirc.Base.Tables.{insert}
use irssi_robustirc.Glib.{Glib}
use irssi_robustirc.Completion.{World}
use irssi_robustirc.Timers.{HasTimers}
use irssi_robustirc.Policy.{Policy, Follows, basics}
use irssi_robustirc.Policy.Events.{change-Follows, free-Follows, request_server-Follows}

module _ (p : Policy) where
  module _ (g : Glib) (world : World) where
    -- A timer is for a GetMessages.
    polls_of :
        (tag curl : ℕ) (r : Request) (w : Session)
        → w.timers tag ≡ some curl
        → w.requests curl ≡ some r
        → HasTimers w
        → Follows p w
        → p.polls (basics w)
    polls_of tag curl r w t e timed (s, all, waits) =
        let (q, f, kind, named) = timed.live tag curl t in
        p.polls_again (basics w) q.kind q.url_suffix q.options kind (all curl q f)

    start_again-Follows :
        (address : Option Str) (w : Session)
        → p.polls (basics w)
        → Follows p w
        → Follows p (start_again g world address w)
    start_again-Follows none w polls h = h
    start_again-Follows (some address) w polls h =
        request_server-Follows p g world address get_messages w polls h

    pub get_messages_timeout-Follows :
        (tag : ℕ) (w : Session)
        → HasTimers w
        → Follows p w
        → Follows p (get_messages_timeout g world tag w)
    unfolding get_messages_timeout time_out
    get_messages_timeout-Follows tag w timed h = elim (Option-cases (w.timers tag)) [
      | inl gone ↦ rw (gone, get_messages_timeout) h
      | inr (curl, t) ↦ elim (Option-cases (w.requests curl)) [
        | inl gone ↦ rw (t, get_messages_timeout) (rw gone h)
        | inr (r, e) ↦ elim (Bool-cases r.has_server) [
          | inl server ↦
              rw (t, get_messages_timeout)
                (rw e (
                  rw server (
                    start_again-Follows w.address _ (polls_of tag curl r w t e timed h) (
                      free-Follows p curl
                        (forget_handle curl (
                          multi_remove curl_handle_gm curl
                            (note_timeout g world r (source_remove tag w))))
                        h))))
          | inr left ↦ rw (t, get_messages_timeout) (rw e (rw left h))
        ]
      ]
    ]

  abort-Follows :
      (curl : ℕ) (r : Request) (w : Session) → Follows p w → Follows p (abort_request curl r w)
  unfolding abort_request
  abort-Follows curl r w h = free-Follows p curl (multi_remove curl_handle curl w) h

  pub write_only_loop-Follows :
      (curls : List ℕ) (w : Session) → Follows p w → Follows p (write_only_loop curls w).1
  unfolding write_only_loop
  write_only_loop-Follows [] w h = h
  write_only_loop-Follows (curl ∷ rest) w h = elim (Option-cases (w.requests curl)) [
    | inl gone ↦ rw (gone, write_only_loop) h
    | inr (r, e) ↦ elim (Bool-cases (is_getmessages r.kind)) [
      | inl kind ↦
          rw (e, write_only_loop)
            (rw kind (
              rw kind at
                (write_only_loop-Follows rest (abort_request curl r w) (abort-Follows curl r w h))))
      | inr kind ↦
          let cleared = record r { has_server = false } in
          rw (e, write_only_loop)
            (rw kind (
              write_only_loop-Follows rest
                (record w { requests = insert ℕ_discrete curl cleared w.requests })
                (change-Follows p curl r cleared w e refl h)))
    ]
  ]

  destroy_loop-Follows :
      (curls : List ℕ) (w : Session) → Follows p w → Follows p (destroy_loop curls w)
  unfolding destroy_loop
  destroy_loop-Follows [] w h = h
  destroy_loop-Follows (curl ∷ rest) w h = elim (Option-cases (w.requests curl)) [
    | inl gone ↦ rw (gone, destroy_loop) h
    | inr (r, e) ↦
        rw (e, destroy_loop)
          (destroy_loop-Follows rest (abort_request curl r w) (abort-Follows curl r w h))
  ]

  pub destroy-Follows : (w : Session) → Follows p w → Follows p (destroy w)
  unfolding destroy
  destroy-Follows w (s, all, waits) =
      destroy_loop-Follows w.curl_handles (record w { cancelled = true; waiting = [] }) (s, all, tt)
