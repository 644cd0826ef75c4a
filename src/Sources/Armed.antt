-- ===== src/Sources/Armed.antt =====
-- The timer of a multi handle.
use irssi_robustirc.Base.{
  some_eq, ℕ, suc, ◌<◌, ◌≡◌, ◌≢◌, ◌⊎◌, inl, inr, refl, sym, ap, ◌∙◌, Option, none, some, ℕ_discrete,
  arith,
}
use irssi_robustirc.Base.Tables.{
  insert, remove, insert_self, remove_self, remove_ne, insert-cases, remove-cases,
}
use irssi_robustirc.Sources.{Condition, drop_source}
use irssi_robustirc.Sources.Wired.{IsWatched, drop-cases}

-- A timer runs exactly if one is wanted, of the wanted time, and no other but the one that fires.
pub record IsArmed (timers : ℕ → Option ℕ) (timerdata : Option ℕ) (next_tag : ℕ)
    (firing wanted : Option ℕ) : Type 0 where
  pub set : (ms : ℕ) → wanted ≡ some ms → (id : ℕ) × (timerdata ≡ some id) × (timers id ≡ some ms)
  pub unset : wanted ≡ none → timerdata ≡ none
  pub only : (id ms : ℕ) → timers id ≡ some ms → (timerdata ≡ some id) ⊎ (firing ≡ some id)
  pub small : (id ms : ℕ) → timers id ≡ some ms → id < next_tag
  pub fired : (id : ℕ) → firing ≡ some id → (timerdata ≢ some id) × (id < next_tag)

module _ (timers : ℕ → Option ℕ) (timerdata : Option ℕ) (next_tag : ℕ)
    (firing wanted : Option ℕ) where
  pub arm-IsArmed :
      (ms : ℕ)
      → IsArmed timers timerdata next_tag firing wanted
      → IsArmed
          (insert ℕ_discrete next_tag ms (drop_source timerdata timers))
          (some next_tag)
          (suc next_tag)
          firing
          (some ms)
  arm-IsArmed ms h = record {
    set = λ t e.
        (next_tag, refl, insert_self ℕ_discrete next_tag ms (drop_source timerdata timers) ∙ e);
    unset = λ e. cc;
    only = λ id t e.
        elim (insert-cases ℕ_discrete next_tag ms (drop_source timerdata timers) id e) [
          | inl (here, _) ↦ inl (ap some here)
          | inr old ↦
              let (running, other) = drop-cases timerdata timers id t old in
              elim (h.only id t running) [
                | inl named ↦ absurd (other named)
                | inr fires ↦ inr fires
              ]
        ];
    small = λ id t e.
        elim (insert-cases ℕ_discrete next_tag ms (drop_source timerdata timers) id e) [
          | inl (here, _) ↦ omega (arith, here)
          | inr old ↦ omega (arith, h.small id t (drop-cases timerdata timers id t old).0)
        ];
    fired = λ id f.
        (λ same. omega (arith, some_eq same, (h.fired id f).1), omega (arith, (h.fired id f).1));
  }

  pub disarm-IsArmed :
      IsArmed timers timerdata next_tag firing wanted
      → IsArmed (drop_source timerdata timers) none next_tag firing none
  disarm-IsArmed h = record {
    set = λ t e. cc;
    unset = λ e. refl;
    only = λ id t e.
        let (running, other) = drop-cases timerdata timers id t e in
        elim (h.only id t running) [ inl named ↦ absurd (other named) | inr fires ↦ inr fires ];
    small = λ id t e. h.small id t (drop-cases timerdata timers id t e).0;
    fired = λ id f. (λ same. cc, (h.fired id f).1);
  }

  -- A tag is given to a watch.
  pub later-IsArmed :
      IsArmed timers timerdata next_tag firing wanted
      → IsArmed timers timerdata (suc next_tag) firing wanted
  later-IsArmed h = record {
    set = h.set;
    unset = h.unset;
    only = h.only;
    small = λ id t e. omega (arith, h.small id t e);
    fired = λ id f. ((h.fired id f).0, omega (arith, (h.fired id f).1));
  }

-- The timer fires: it is forgotten, and still runs.
pub fire-IsArmed :
    (timers : ℕ → Option ℕ) (next_tag id : ℕ) (wanted : Option ℕ)
    → id < next_tag
    → IsArmed timers (some id) next_tag none wanted
    → IsArmed timers none next_tag (some id) none
fire-IsArmed timers next_tag id wanted lt h = record {
  set = λ t e. cc;
  unset = λ e. refl;
  only = λ x t e. elim (h.only x t e) [
    | inl named ↦ inr named
    | inr fires ↦ let clash : none ≡ some x = fires in cc
  ];
  small = h.small;
  fired = λ x f. (λ same. cc, omega (arith, some_eq f, lt));
}

-- The timer that has fired is removed.
pub end-IsArmed :
    (timers : ℕ → Option ℕ) (timerdata : Option ℕ) (next_tag id : ℕ) (wanted : Option ℕ)
    → IsArmed timers timerdata next_tag (some id) wanted
    → IsArmed (remove ℕ_discrete id timers) timerdata next_tag none wanted
end-IsArmed timers timerdata next_tag id wanted h = record {
  set = λ t e.
      let (x, named, running) = h.set t e in
      (
        x,
        named,
        remove_ne ℕ_discrete id timers x (λ same. (h.fired id refl).0 (named ∙ ap some (sym same)))
            ∙ running,
      );
  unset = h.unset;
  only = λ x t e. elim (h.only x t (remove-cases ℕ_discrete id timers x e)) [
    | inl named ↦ inl named
    | inr fires ↦
        let gone : none ≡ some t =
          sym (remove_self ℕ_discrete id timers) ∙ (rw (← some_eq fires) at e) in
        cc
  ];
  small = λ x t e. h.small x t (remove-cases ℕ_discrete id timers x e);
  fired = λ x f. let clash : none ≡ some x = f in cc;
}

pub later-IsWatched :
    (watches : ℕ → Option (ℕ × Condition)) (assigned : ℕ → Option ℕ) (next_tag : ℕ)
    (sockets : ℕ → Option Condition)
    → IsWatched watches assigned next_tag sockets
    → IsWatched watches assigned (suc next_tag) sockets
later-IsWatched watches assigned next_tag sockets h = record {
  on = h.on;
  off = h.off;
  only = h.only;
  small = λ id s c e. omega (arith, h.small id s c e);
}
