-- ===== src/Ownership/Leaving.antt =====
-- What robustsession_write_only and robustsession_destroy do to each request.
use irssi_robustirc.Base.Counts.{count, hit, hit_eq, hit_ne, hit_self}
use irssi_robustirc.Base.{
  ℕ, ◌+◌, ◌<◌, ◌≡◌, ◌≢◌, refl, ◌∙◌, true, false, none, some, List, [], ◌∷◌, arith, ℕ_discrete,
  Option-cases, inl, inr, Bool-cases, ◌⊎◌, ◌≤◌,
}
use irssi_robustirc.Base.Tables.{remove_self, remove_ne, insert_ne, insert_self}
use irssi_robustirc.Glib.{Glib}
use irssi_robustirc.Session.{Request, curl_handle, Session, is_getmessages, is_multi, multi_remove}
use irssi_robustirc.Teardown.{abort_request, write_only_loop, write_only}
use irssi_robustirc.Ownership.{IsWhole}
use irssi_robustirc.Completion.{crash_session}
use irssi_robustirc.Ownership.Loops.{cleared_request}
use irssi_robustirc.Ownership.Reach.{reachable-IsWhole}
use irssi_robustirc.Runs.{Reach}

abort-other :
    (curl : ℕ) (r : Request) (w : Session) (c : ℕ)
    → curl ≢ c
    → ((abort_request curl r w).requests c ≡ w.requests c)
      × ((abort_request curl r w).attached c ≡ w.attached c)
unfolding abort_request
abort-other curl r w c other = (
  remove_ne ℕ_discrete curl w.requests c other,
  remove_ne ℕ_discrete curl (multi_remove curl_handle curl w).attached c other
      ∙ (elim (Bool-cases (is_multi (w.attached curl) curl_handle)) [
        | inl on ↦ rw on (remove_ne ℕ_discrete curl w.attached c other)
        | inr off ↦ rw off refl
      ]),
)

abort_self :
    (curl : ℕ) (r : Request) (w : Session)
    → ((abort_request curl r w).requests curl ≡ none)
      × ((abort_request curl r w).attached curl ≡ none)
unfolding abort_request
abort_self curl r w = (
  remove_self ℕ_discrete curl w.requests,
  remove_self ℕ_discrete curl (multi_remove curl_handle curl w).attached,
)

-- A handle that is not in the list is left as it is.
unfoldable pub IsLeft : ℕ → Session → List ℕ × Session → Type 0
IsLeft c w (kept, w') =
    (w'.requests c ≡ w.requests c) × (w'.attached c ≡ w.attached c) × (count c kept ≡ 0)

apart : (x c n : ℕ) → hit x c + n ≡ 0 → x ≢ c
apart x c n out same = ground arith

IsLeft-trans :
    (c : ℕ) (w v : Session) (r : List ℕ × Session)
    → (v.requests c ≡ w.requests c) × (v.attached c ≡ w.attached c)
    → IsLeft c v r
    → IsLeft c w r
unfolding IsLeft
IsLeft-trans c w v (kept, w') (a, b) (e, f, out) = (e ∙ a, f ∙ b, out)

-- The steps of the loop.
step-gone :
    (curl : ℕ) (rest : List ℕ) (r : Request) (w : Session)
    → w.requests curl ≡ some r
    → is_getmessages r.kind ≡ true
    → write_only_loop (curl ∷ rest) w ≡ write_only_loop rest (abort_request curl r w)
unfolding write_only_loop
step-gone curl rest r w e kind = rw (e, write_only_loop) (rw kind refl)

step-kept :
    (curl : ℕ) (rest : List ℕ) (r : Request) (w : Session)
    → w.requests curl ≡ some r
    → is_getmessages r.kind ≡ false
    → write_only_loop (curl ∷ rest) w ≡ (
      curl ∷ (write_only_loop rest (cleared_request curl r w)).0,
      (write_only_loop rest (cleared_request curl r w)).1,
    )
unfolding write_only_loop
step-kept curl rest r w e kind = rw (e, write_only_loop) (rw kind refl)

step-crash :
    (curl : ℕ) (rest : List ℕ) (w : Session)
    → w.requests curl ≡ none
    → write_only_loop (curl ∷ rest) w ≡ (curl ∷ rest, crash_session w)
unfolding write_only_loop
step-crash curl rest w e = rw (e, write_only_loop) refl

loop-end : (w : Session) → write_only_loop [] w ≡ ([], w)
unfolding write_only_loop
loop-end w = refl

pub write_only_loop-other :
    (c : ℕ) (curls : List ℕ) (w : Session)
    → count c curls ≡ 0
    → IsLeft c w (write_only_loop curls w)
unfolding IsLeft
write_only_loop-other c [] w out = rw (loop-end w) (refl, refl, refl)
write_only_loop-other c (curl ∷ rest) w out = elim (Option-cases (w.requests curl)) [
  | inl e ↦ rw (step-crash curl rest w e) (refl, refl, out)
  | inr (r, e) ↦
      let other = apart curl c (count c rest) out in
      elim (Bool-cases (is_getmessages r.kind)) [
        | inl kind ↦ rw (step-gone curl rest r w e kind) (
            IsLeft-trans c w (abort_request curl r w)
              (write_only_loop rest (abort_request curl r w)) (abort-other curl r w c other)
              (write_only_loop-other c rest (abort_request curl r w) (omega (arith, out))))
        | inr kind ↦
            let (a, b, gone) =
              write_only_loop-other c rest (cleared_request curl r w) (omega (arith, out)) in
            rw (step-kept curl rest r w e kind) (
              a ∙ insert_ne ℕ_discrete curl _ w.requests c other,
              b,
              omega (arith, gone, hit_ne curl c other),
            )
      ]
]

-- What robustsession_write_only leaves of the request of a handle of the list.
unfoldable pub Leaves : ℕ → Request → Session → List ℕ × Session → Type 0
Leaves c r w (kept, w') =
    ((is_getmessages r.kind ≡ true)
      × (count c kept ≡ 0)
      × (w'.requests c ≡ none)
      × (w'.attached c ≡ none))
    ⊎ ((is_getmessages r.kind ≡ false)
        × (count c kept ≡ 1)
        × (w'.requests c ≡ some (record r { has_server = false }))
        × (w'.attached c ≡ w.attached c))

Leaves-trans :
    (c : ℕ) (r : Request) (w v : Session) (p : List ℕ × Session)
    → v.attached c ≡ w.attached c
    → Leaves c r v p
    → Leaves c r w p
unfolding Leaves
Leaves-trans c r w v (kept, w') same (inl gone) = inl gone
Leaves-trans c r w v (kept, w') same (inr (kind, one, e, on)) = inr (kind, one, e, on ∙ same)

Leaves-cons :
    (c curl : ℕ) (r : Request) (w v : Session) (p : List ℕ × Session)
    → curl ≢ c
    → v.attached c ≡ w.attached c
    → Leaves c r v p
    → Leaves c r w (curl ∷ p.0, p.1)
unfolding Leaves
Leaves-cons c curl r w v (kept, w') other same (inl (kind, none_left, e, off)) =
    inl (kind, omega (arith, none_left, hit_ne curl c other), e, off)
Leaves-cons c curl r w v (kept, w') other same (inr (kind, one, e, on)) =
    inr (kind, omega (arith, one, hit_ne curl c other), e, on ∙ same)

-- Each handle is once in the list and has a request.
AllLive : List ℕ → Session → Type 0
AllLive curls w =
    (x : ℕ) → (count x curls ≤ 1) × (0 < count x curls → (q : Request) × (w.requests x ≡ some q))

AllLive-rest :
    (curl : ℕ) (rest : List ℕ) (w v : Session)
    → ((x : ℕ) → curl ≢ x → v.requests x ≡ w.requests x)
    → AllLive (curl ∷ rest) w
    → AllLive rest v
unfolding AllLive
AllLive-rest curl rest w v same h x = (
  omega (arith, (h x).0),
  λ listed.
      let other : curl ≢ x = λ e. omega (arith, (h x).0, hit_eq curl x e, listed) in
      let (q, e) = (h x).1 (omega (arith, listed)) in (q, same x other ∙ e),
)

here-Leaves :
    (c : ℕ) (r : Request) (rest : List ℕ) (w : Session)
    → count c rest ≡ 0
    → w.requests c ≡ some r
    → Leaves c r w (write_only_loop (c ∷ rest) w)
unfolding Leaves IsLeft
here-Leaves c r rest w out e = elim (Bool-cases (is_getmessages r.kind)) [
  | inl kind ↦
      let (a, b, gone) = write_only_loop-other c rest (abort_request c r w) out in
      let (freed, off) = abort_self c r w in
      rw (step-gone c rest r w e kind) (inl (kind, gone, a ∙ freed, b ∙ off))
  | inr kind ↦
      let (a, b, gone) = write_only_loop-other c rest (cleared_request c r w) out in
      rw (step-kept c rest r w e kind)
        (inr (kind, omega (arith, gone, hit_self c), a ∙ insert_self ℕ_discrete c _ w.requests, b))
]

write_only_loop-Leaves :
    (c : ℕ) (r : Request) (curls : List ℕ) (w : Session)
    → 0 < count c curls
    → AllLive curls w
    → w.requests c ≡ some r
    → Leaves c r w (write_only_loop curls w)
unfolding AllLive
write_only_loop-Leaves c r [] w listed live e = absurd (omega (arith, listed))
write_only_loop-Leaves c r (curl ∷ rest) w listed live e = elim (ℕ_discrete curl c) [
  | yes same ↦ rw same (here-Leaves c r rest w (omega (arith, (live c).0, hit_eq curl c same)) e)
  | no other ↦
      let (q, f) = (live curl).1 (omega (arith, hit_self curl)) in
      let later : 0 < count c rest = omega (arith, listed, hit_ne curl c other) in
      elim (Bool-cases (is_getmessages q.kind)) [
        | inl kind ↦ rw (step-gone curl rest q w f kind) (
            Leaves-trans c r w (abort_request curl q w) _ (abort-other curl q w c other).1 (
              write_only_loop-Leaves c r rest (abort_request curl q w) later
                (AllLive-rest curl rest w (abort_request curl q w)
                  (λ x apart_x. (abort-other curl q w x apart_x).0) live)
                ((abort-other curl q w c other).0 ∙ e)))
        | inr kind ↦ rw (step-kept curl rest q w f kind) (
            Leaves-cons c curl r w (cleared_request curl q w) _ other refl (
              write_only_loop-Leaves c r rest (cleared_request curl q w) later
                (AllLive-rest curl rest w (cleared_request curl q w)
                  (λ x apart_x. insert_ne ℕ_discrete curl _ w.requests x apart_x) live)
                (insert_ne ℕ_discrete curl _ w.requests c other ∙ e)))
      ]
]

AllLive-IsWhole : (w : Session) → IsWhole w → AllLive w.curl_handles w
unfolding AllLive
AllLive-IsWhole w (t, h) x = (omega (arith, h.once x), λ listed. h.live x (omega (arith, listed)))

pub write_only-Leaves :
    (w : Session) (c : ℕ) (r : Request)
    → IsWhole w
    → 0 < count c w.curl_handles
    → w.requests c ≡ some r
    → Leaves c r w ((write_only w).curl_handles, write_only w)
unfolding write_only Leaves
write_only-Leaves w c r h listed e =
    write_only_loop-Leaves c r w.curl_handles w listed (AllLive-IsWhole w h) e

-- In a session that the events lead to, robustsession_write_only leaves of the request of a handle
-- of the list: nothing, if it is a GetMessages, which is freed and off its multi handle; else the
-- request, which stays where it is, on the list and with libcurl, and loses its server.
pub write_only_effect :
    {g : Glib} (w : Session) (c : ℕ) (r : Request)
    → Reach g w
    → 0 < count c w.curl_handles
    → w.requests c ≡ some r
    → Leaves c r w ((write_only w).curl_handles, write_only w)
write_only_effect w c r run listed e = write_only-Leaves w c r (reachable-IsWhole run) listed e
