-- ===== src/Sources/Wired.antt =====
-- The sources of glib follow what libcurl asks for.
use irssi_robustirc.Base.{
  some_eq, ℕ, zero, suc, ◌^◌, ◌<◌, ◌≡◌, ◌≢◌, inl, inr, refl, sym, ap, ◌∙◌, true, false, Option,
  none, some, List, [], ◌∷◌, ℕ_discrete, Option-cases, arith,
}
use irssi_robustirc.Base.Int.{ℤ, pos, negsuc, to_word}
use irssi_robustirc.Base.Tables.{
  insert, remove, insert_self, insert_ne, remove_self, remove_ne, insert-cases, remove-cases,
}
use irssi_robustirc.Sources.{
  What, poll_none, poll_in, poll_out, poll_inout, poll_remove, Condition, Call, socket, timeout,
  drop_source,
}

-- What libcurl wants: a condition for each socket, and a timeout.
pub record Wants : Type 0 where
  pub sockets : ℕ → Option Condition
  pub timer : Option ℕ

abbrev pub want_socket : What → ℕ → Wants → Wants
want_socket poll_none s v = v
want_socket poll_remove s v = record v { sockets = remove ℕ_discrete s v.sockets }
want_socket poll_in s v = record v { sockets = insert ℕ_discrete s (true, false) v.sockets }
want_socket poll_out s v = record v { sockets = insert ℕ_discrete s (false, true) v.sockets }
want_socket poll_inout s v = record v { sockets = insert ℕ_discrete s (true, true) v.sockets }

-- A long, as a guint; -1 is for none.
abbrev pub wanted_timeout : ℤ → Option ℕ
wanted_timeout (negsuc zero) = none
wanted_timeout (negsuc (suc n)) = some (to_word (2 ^ 32) (negsuc (suc n)))
wanted_timeout (pos n) = some (to_word (2 ^ 32) (pos n))

abbrev pub want : Call → Wants → Wants
want (socket what s) v = want_socket what s v
want (timeout ms) v = record v { timer = wanted_timeout ms }

abbrev pub wants : List Call → Wants → Wants
wants [] v = v
wants (c ∷ cs) v = wants cs (want c v)

-- A socket has a watch exactly if one is wanted, with the wanted condition, and has no other.
pub record IsWatched (watches : ℕ → Option (ℕ × Condition)) (assigned : ℕ → Option ℕ) (next_tag : ℕ)
    (sockets : ℕ → Option Condition) : Type 0 where
  pub on :
      (s : ℕ) (c : Condition)
      → sockets s ≡ some c
      → (id : ℕ) × (assigned s ≡ some id) × (watches id ≡ some (s, c))
  pub off : (s : ℕ) → sockets s ≡ none → assigned s ≡ none
  pub only : (id s : ℕ) (c : Condition) → watches id ≡ some (s, c) → assigned s ≡ some id
  pub small : (id s : ℕ) (c : Condition) → watches id ≡ some (s, c) → id < next_tag

pub drop-cases {ℓ} :
    {V : Type ℓ} (old : Option ℕ) (t : ℕ → Option V) (id : ℕ) (v : V)
    → drop_source old t id ≡ some v
    → (t id ≡ some v) × (old ≢ some id)
drop-cases none t id v e = (e, λ same. cc)
drop-cases (some x) t id v e = (
  remove-cases ℕ_discrete x t id e,
  λ same.
      let here : x ≡ id = cc in
      let gone : none ≡ some v = sym (remove_self ℕ_discrete id t) ∙ (rw here at e) in cc,
)

drop_ne {ℓ} :
    {V : Type ℓ} (old : Option ℕ) (t : ℕ → Option V) (id : ℕ)
    → old ≢ some id
    → drop_source old t id ≡ t id
drop_ne none t id other = refl
drop_ne (some x) t id other = remove_ne ℕ_discrete x t id (λ same. other (ap some same))

module _ (watches : ℕ → Option (ℕ × Condition)) (assigned : ℕ → Option ℕ) (next_tag : ℕ)
    (sockets : ℕ → Option Condition) where
  assigned-watch :
      (s id : ℕ)
      → IsWatched watches assigned next_tag sockets
      → assigned s ≡ some id
      → (c : Condition) × (watches id ≡ some (s, c))
  assigned-watch s id h e = elim (Option-cases (sockets s)) [
    | inl unwanted ↦ let gone : none ≡ some id = sym (h.off s unwanted) ∙ e in cc
    | inr (c, wanted) ↦
        let (x, a, w) = h.on s c wanted in
        let same : x ≡ id = some_eq (sym a ∙ e) in (c, (rw same at w))
  ]

  -- The watch of another socket stays.
  other_stays :
      (s s' id : ℕ) (c : Condition)
      → IsWatched watches assigned next_tag sockets
      → s ≢ s'
      → watches id ≡ some (s', c)
      → drop_source (assigned s) watches id ≡ some (s', c)
  other_stays s s' id c h apart e =
      drop_ne (assigned s) watches id (λ same.
        let (c', f) = assigned-watch s id h same in
        let pairs : some (s, c') ≡ some (s', c) = sym f ∙ e in
        apart (ap (λ (p : ℕ × Condition). p.0) (some_eq pairs)))
      ∙ e

  pub watch-IsWatched :
      (s : ℕ) (c : Condition)
      → IsWatched watches assigned next_tag sockets
      → IsWatched
          (insert ℕ_discrete next_tag (s, c) (drop_source (assigned s) watches))
          (insert ℕ_discrete s next_tag assigned)
          (suc next_tag)
          (insert ℕ_discrete s c sockets)
  watch-IsWatched s c h = record {
    on = λ s' c' e. elim (ℕ_discrete s s') [
      | yes same ↦
          let conditions : c ≡ c' =
            some_eq (sym (insert_self ℕ_discrete s c sockets) ∙ (rw (← same) at e)) in
          (
            next_tag,
            rw (← same) (insert_self ℕ_discrete s next_tag assigned),
            rw (← same, ← conditions)
                (insert_self ℕ_discrete next_tag (s, c) (drop_source (assigned s) watches)),
          )
      | no apart ↦
          let (id, a, w) = h.on s' c' (sym (insert_ne ℕ_discrete s c sockets s' apart) ∙ e) in
          (
            id,
            insert_ne ℕ_discrete s next_tag assigned s' apart ∙ a,
            insert_ne ℕ_discrete next_tag (s, c) (drop_source (assigned s) watches) id
                  (λ fresh. omega (arith, fresh, h.small id s' c' w))
                ∙ other_stays s s' id c' h apart w,
          )
    ];
    off = λ s' e. elim (ℕ_discrete s s') [
      | yes same ↦
          let gone : some c ≡ none =
            sym (insert_self ℕ_discrete s c sockets) ∙ (rw (← same) at e) in
          cc
      | no apart ↦
          insert_ne ℕ_discrete s next_tag assigned s' apart
          ∙ h.off s' (sym (insert_ne ℕ_discrete s c sockets s' apart) ∙ e)
    ];
    only = λ id s' c' e.
        elim (insert-cases ℕ_discrete next_tag (s, c) (drop_source (assigned s) watches) id e) [
          | inl (here, pairs) ↦
              let same : s ≡ s' = ap (λ (p : ℕ × Condition). p.0) pairs in
              rw (← same, ← here) (insert_self ℕ_discrete s next_tag assigned)
          | inr old ↦
              let (w, other) = drop-cases (assigned s) watches id (s', c') old in
              let a = h.only id s' c' w in
              insert_ne ℕ_discrete s next_tag assigned s' (λ same. other (rw same a)) ∙ a
        ];
    small = λ id s' c' e.
        elim (insert-cases ℕ_discrete next_tag (s, c) (drop_source (assigned s) watches) id e) [
          | inl (here, _) ↦ omega (arith, here)
          | inr old ↦
              omega (arith, h.small id s' c' (drop-cases (assigned s) watches id (s', c') old).0)
        ];
  }

  pub unwatch-IsWatched :
      (s : ℕ)
      → IsWatched watches assigned next_tag sockets
      → IsWatched
          (drop_source (assigned s) watches)
          (remove ℕ_discrete s assigned)
          next_tag
          (remove ℕ_discrete s sockets)
  unwatch-IsWatched s h = record {
    on = λ s' c' e.
        let apart : s ≢ s' = λ same.
          let gone : none ≡ some c' = sym (remove_self ℕ_discrete s sockets) ∙ (rw (← same) at e) in
          cc in
        let (id, a, w) = h.on s' c' (remove-cases ℕ_discrete s sockets s' e) in
        (id, remove_ne ℕ_discrete s assigned s' apart ∙ a, other_stays s s' id c' h apart w);
    off = λ s' e. elim (ℕ_discrete s s') [
      | yes same ↦ rw (← same) (remove_self ℕ_discrete s assigned)
      | no apart ↦
          remove_ne ℕ_discrete s assigned s' apart
          ∙ h.off s' (sym (remove_ne ℕ_discrete s sockets s' apart) ∙ e)
    ];
    only = λ id s' c' e.
        let (w, other) = drop-cases (assigned s) watches id (s', c') e in
        let a = h.only id s' c' w in
        remove_ne ℕ_discrete s assigned s' (λ same. other (rw same a)) ∙ a;
    small = λ id s' c' e. h.small id s' c' (drop-cases (assigned s) watches id (s', c') e).0;
  }
