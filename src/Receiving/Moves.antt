-- ===== src/Receiving/Moves.antt =====
-- A callback does not depend on the bytes that the parser was given, and keeps them.
use irssi_robustirc.Base.{
  ℕ, ◌≡◌, refl, sym, ap, ◌∙◌, Option, some, List, [], ◌∷◌, ◌++◌, ℕ_discrete, Bool-cases,
  Option-cases, inl, inr,
}
use irssi_robustirc.Base.Text.{Str}
use irssi_robustirc.Base.Tables.{insert, insert_self, insert-insert}
use irssi_robustirc.Glib.{Glib}
use irssi_robustirc.Messages.{Token, callback}
use irssi_robustirc.Session.{Request, Session, restart_timer}
use irssi_robustirc.Completion.{address_of}
use irssi_robustirc.Receiving.{
  stream_of, put_stream, put_fed, ends_message, defers, gm_step, callback_at, gm_callback,
  gm_callbacks,
}

-- The requests that a table of inserts comes to do not depend on what was there.
insert_twice :
    (curl : ℕ) (a b b' : Request) (t : ℕ → Option Request)
    → insert ℕ_discrete curl a (insert ℕ_discrete curl b t)
      ≡ insert ℕ_discrete curl a (insert ℕ_discrete curl b' t)
insert_twice curl a b b' t =
    insert-insert ℕ_discrete curl a b t ∙ sym (insert-insert ℕ_discrete curl a b' t)

insert_thrice :
    (curl : ℕ) (a b b' c c' : Request) (t : ℕ → Option Request)
    → insert ℕ_discrete curl a (insert ℕ_discrete curl b (insert ℕ_discrete curl c t))
      ≡ insert ℕ_discrete curl a (insert ℕ_discrete curl b' (insert ℕ_discrete curl c' t))
insert_thrice curl a b b' c c' t =
    insert_twice curl a b b' (insert ℕ_discrete curl c t)
    ∙ ap (insert ℕ_discrete curl a) (insert_twice curl b' c c' t)

abbrev pub fed_request : Request → Str → Request
fed_request r fed = record r { parse = record r.parse { fed = fed } }

-- The session w' after a step keeps the bytes that the parser of the request was given, and the
-- step would do the same if they were others.
abbrev pub Moves : ℕ → Request → Session → (Str → Session) → Type 0
Moves curl r w' after =
    (q : Request) × (w'.requests curl ≡ some q)
    × (q.parse.fed ≡ r.parse.fed)
    × ((fed : Str) → after fed ≡ put_fed curl q fed w')

module _ (g : Glib) where
  gm_step-Moves :
      (address : Str) (token : Token) (curl : ℕ) (r : Request) (w : Session)
      → Moves curl r
          (gm_step g address token curl r w)
          (λ fed. gm_step g address token curl (fed_request r fed) (put_fed curl r fed w))
  unfolding gm_step
  gm_step-Moves address token curl r w =
      let s = callback g address r.target 0 token (stream_of r.parse w) in
      let put = put_stream curl r s w in
      elim (Bool-cases (defers token r.parse)) [
        | inl ping ↦ rw ping (
          _,
          insert_self ℕ_discrete curl _ put.requests,
          refl,
          λ fed.
              ap (λ t. record (put_fed curl r fed (restart_timer curl r put)) { requests = t })
                (insert_thrice curl _ _ _ _ _ w.requests),
        )
        | inr other ↦ rw other (
          _,
          insert_self ℕ_discrete curl _ w.requests,
          refl,
          λ fed. ap (λ t. record put { requests = t }) (insert_twice curl _ _ _ w.requests),
        )
      ]

  callback_at-Moves :
      (token : Token) (curl : ℕ) (r : Request) (w : Session)
      → w.requests curl ≡ some r
      → Moves curl r
          (callback_at g token curl r w)
          (λ fed. callback_at g token curl (fed_request r fed) (put_fed curl r fed w))
  unfolding callback_at
  callback_at-Moves token curl r w e = elim (Option-cases (address_of r w)) [
    | inr (address, a) ↦ rw (a, callback_at) (gm_step-Moves address token curl r w)
    | inl a ↦ elim (Bool-cases (ends_message token r.parse.depth)) [
      | inl ends ↦ rw (a, callback_at) (rw ends (r, e, refl, λ fed. refl))
      | inr goes_on ↦
          rw (a, callback_at) (rw goes_on (rw goes_on at (gm_step-Moves [] token curl r w)))
    ]
  ]

  gm_callback-some :
      (token : Token) (curl : ℕ) (r : Request) (w : Session)
      → w.requests curl ≡ some r
      → gm_callback g token curl w ≡ callback_at g token curl r w
  unfolding gm_callback
  gm_callback-some token curl r w e = rw (e, gm_callback) refl

  gm_callback-Moves :
      (token : Token) (curl : ℕ) (r : Request) (w : Session)
      → w.requests curl ≡ some r
      → Moves curl r
          (gm_callback g token curl w)
          (λ fed. gm_callback g token curl (put_fed curl r fed w))
  gm_callback-Moves token curl r w e =
      let (q, found, same, moves) = callback_at-Moves token curl r w e in
      let now = gm_callback-some token curl r w e in
      (
        q,
        ap (λ u. u.requests curl) now ∙ found,
        same,
        λ fed.
            gm_callback-some token curl (fed_request r fed) (put_fed curl r fed w)
              (insert_self ℕ_discrete curl (fed_request r fed) w.requests)
            ∙ moves fed
            ∙ ap (put_fed curl q fed) (sym now),
      )

  pub gm_callbacks-Moves :
      (ts : List Token) (curl : ℕ) (r : Request) (w : Session)
      → w.requests curl ≡ some r
      → Moves curl r
          (gm_callbacks g ts curl w)
          (λ fed. gm_callbacks g ts curl (put_fed curl r fed w))
  unfolding gm_callbacks
  gm_callbacks-Moves [] curl r w e = (r, e, refl, λ fed. refl)
  gm_callbacks-Moves (t ∷ ts) curl r w e =
      let (q, found, same, moves) = gm_callback-Moves t curl r w e in
      let (p, found', same', moves') =
        gm_callbacks-Moves ts curl q (gm_callback g t curl w) found in
      (p, found', same' ∙ same, λ fed. ap (gm_callbacks g ts curl) (moves fed) ∙ moves' fed)

  pub gm_callbacks-append :
      (ts us : List Token) (curl : ℕ) (w : Session)
      → gm_callbacks g (ts ++ us) curl w ≡ gm_callbacks g us curl (gm_callbacks g ts curl w)
  unfolding gm_callbacks
  gm_callbacks-append [] us curl w = refl
  gm_callbacks-append (t ∷ ts) us curl w = gm_callbacks-append ts us curl (gm_callback g t curl w)
