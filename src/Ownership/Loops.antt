-- ===== src/Ownership/Loops.antt =====
-- The loops of robustsession_write_only and robustsession_destroy keep the owners of the handles
-- right.
use irssi_robustirc.Base.Counts.{count-append, count-list_remove, hit_self, list_remove}
use irssi_robustirc.Base.{
  ℕ, ◌≡◌, refl, true, false, some, List, [], ◌∷◌, ◌++◌, arith, ℕ_discrete, Option-cases, inl, inr,
  Bool-cases,
}
use irssi_robustirc.Base.Tables.{insert}
use irssi_robustirc.Session.{Request, curl_handle, Session, is_getmessages}
use irssi_robustirc.Teardown.{abort_request, write_only_loop, write_only, destroy_loop, destroy}
use irssi_robustirc.Timers.{HasTimers, IsUntimed-kind, change_untimed}
use irssi_robustirc.Timers.Ends.{abort-HasTimers, write_only-HasTimers}
use irssi_robustirc.Ownership.{IsOwned, HasOwners, IsWhole, parked, leave, free, recount, change}
use irssi_robustirc.Ownership.Events.{off_freed, stopped_off}

-- A request of the list is aborted.
pub abort-IsOwned :
    (waits others rest : List ℕ) (curl : ℕ) (r : Request) (w : Session)
    → w.requests curl ≡ some r
    → HasTimers w
    → IsOwned w.requests w.attached w.timers waits (others ++ curl ∷ rest)
    → IsOwned
        (abort_request curl r w).requests
        (abort_request curl r w).attached
        (abort_request curl r w).timers
        waits
        (others ++ rest)
unfolding abort_request
abort-IsOwned waits others rest curl r w e t h =
    let listed = others ++ curl ∷ rest in
    recount _ _ _ waits (list_remove curl listed) waits (others ++ rest) (λ c. omega arith)
      (λ c. omega (
        arith,
        count-list_remove c curl listed,
        count-append c others (curl ∷ rest),
        count-append c others rest,
      ))
      (free w.requests _ _ waits (list_remove curl listed) curl (
        leave w.requests w.attached w.timers waits listed curl _ _
          (omega (arith, count-append curl others (curl ∷ rest), hit_self curl))
          (off_freed curl_handle curl w) (stopped_off curl r w e t) h))

-- The request keeps its place in the list, and loses its server.
abbrev pub cleared_request : ℕ → Request → Session → Session
cleared_request curl r w = record w {
  requests = insert ℕ_discrete curl (record r { has_server = false }) w.requests;
}

pub write_only_loop-IsOwned :
    (waits others curls : List ℕ) (w : Session)
    → HasTimers w
    → IsOwned w.requests w.attached w.timers waits (others ++ curls)
    → IsOwned
        (write_only_loop curls w).1.requests
        (write_only_loop curls w).1.attached
        (write_only_loop curls w).1.timers
        waits
        (others ++ (write_only_loop curls w).0)
unfolding write_only_loop abort_request
write_only_loop-IsOwned waits others [] w t h = h
write_only_loop-IsOwned waits others (curl ∷ rest) w t h = elim (Option-cases (w.requests curl)) [
  | inl e ↦ rw (e, write_only_loop) h
  | inr (r, e) ↦ elim (Bool-cases (is_getmessages r.kind)) [
    | inl kind ↦
        rw (e, write_only_loop)
          (rw kind (
            rw kind at (
              write_only_loop-IsOwned waits others rest (abort_request curl r w)
                (abort-HasTimers curl r w e t) (abort-IsOwned waits others rest curl r w e t h))))
    | inr kind ↦
        let cleared = cleared_request curl r w in
        let kept = (write_only_loop rest cleared).0 in
        rw (e, write_only_loop)
          (rw kind (
            recount _ _ _ waits (curl ∷ others ++ kept) waits (others ++ curl ∷ kept)
              (λ c. omega arith)
              (λ c. omega (arith, count-append c others (curl ∷ kept), count-append c others kept))
              (write_only_loop-IsOwned waits (curl ∷ others) rest cleared
                (change_untimed w.requests w.timers w.next_curl w.next_tag curl _
                  (t.new_handle curl r e)
                  (IsUntimed-kind w.requests w.timers w.next_curl w.next_tag curl r e kind t) t)
                (change w.requests w.attached w.timers waits (curl ∷ others ++ rest) curl _ (
                  recount w.requests w.attached w.timers waits (others ++ curl ∷ rest) waits
                    (curl ∷ others ++ rest) (λ c. omega arith)
                    (λ c.
                      omega
                        (arith, count-append c others (curl ∷ rest), count-append c others rest))
                    h)))))
  ]
]

destroy_loop-IsOwned :
    (waits curls : List ℕ) (w : Session)
    → HasTimers w
    → IsOwned w.requests w.attached w.timers waits curls
    → IsOwned
        (destroy_loop curls w).requests
        (destroy_loop curls w).attached
        (destroy_loop curls w).timers
        waits
        []
unfolding destroy_loop
destroy_loop-IsOwned waits [] w t h = h
destroy_loop-IsOwned waits (curl ∷ rest) w t h = elim (Option-cases (w.requests curl)) [
  | inl e ↦ let (r, found) = h.live curl (omega (arith, hit_self curl)) in cc
  | inr (r, e) ↦
      rw (e, destroy_loop)
        (destroy_loop-IsOwned waits rest (abort_request curl r w) (abort-HasTimers curl r w e t)
          (abort-IsOwned waits [] rest curl r w e t h))
]

-- The loops leave the requests that wait.
pub write_only_loop-waiting :
    (curls : List ℕ) (w : Session) → (write_only_loop curls w).1.waiting ≡ w.waiting
unfolding write_only_loop abort_request
write_only_loop-waiting [] w = refl
write_only_loop-waiting (curl ∷ rest) w = elim (Option-cases (w.requests curl)) [
  | inl e ↦ rw (e, write_only_loop) refl
  | inr (r, e) ↦ elim (Bool-cases (is_getmessages r.kind)) [
    | inl kind ↦
        rw (e, write_only_loop)
          (rw kind (rw kind at (write_only_loop-waiting rest (abort_request curl r w))))
    | inr kind ↦
        rw (e, write_only_loop) (rw kind (write_only_loop-waiting rest (cleared_request curl r w)))
  ]
]

pub destroy_loop-waiting :
    (curls : List ℕ) (w : Session) → (destroy_loop curls w).waiting ≡ w.waiting
unfolding destroy_loop
destroy_loop-waiting [] w = refl
destroy_loop-waiting (curl ∷ rest) w = elim (Option-cases (w.requests curl)) [
  | inl e ↦ rw (e, destroy_loop) refl
  | inr (r, e) ↦ rw (e, destroy_loop) (destroy_loop-waiting rest (abort_request curl r w))
]

write_only-HasOwners : (w : Session) → IsWhole w → HasOwners (write_only w)
unfolding write_only
write_only-HasOwners w (t, h) =
    rw (write_only_loop-waiting w.curl_handles w)
      (write_only_loop-IsOwned (parked w.waiting) [] w.curl_handles w t h)

destroy-HasOwners : (w : Session) → IsWhole w → HasOwners (destroy w)
unfolding destroy
destroy-HasOwners w (t, h) =
    let cancelled = record w { cancelled = true; waiting = [] } in
    rw (destroy_loop-waiting w.curl_handles cancelled) (
      destroy_loop-IsOwned [] w.curl_handles cancelled t (
        recount w.requests w.attached w.timers (parked w.waiting) w.curl_handles [] w.curl_handles
          (λ c. omega arith) (λ c. refl) h))

-- Leaving the session to its outstanding requests, and tearing it down.
pub write_only-IsWhole : (w : Session) → IsWhole w → IsWhole (write_only w)
write_only-IsWhole w h = ((write_only-HasTimers w h.0).0, write_only-HasOwners w h)

pub destroy-IsWhole : (w : Session) → IsWhole w → IsWhole (destroy w)
destroy-IsWhole w h = ((write_only-HasTimers w h.0).1, destroy-HasOwners w h)
