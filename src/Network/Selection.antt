-- ===== src/Network/Selection.antt =====
-- Which server robustsession_network_server settles on while the clock stands at one second.
use mathlib.Core.List.{append_assoc, append-nil, perm_middle, Perm}
use irssi_robustirc.Base.{
  ℕ, suc, ◌-◌, ◌<◌, ◌≡◌, refl, sym, ◌∙◌, ◌⊎◌, inl, inr, true, false, Option, none, some, List, [],
  ◌∷◌, ◌++◌, ltb, leb, if◌then◌else◌, arith, All, Bool-cases, Option-cases,
}
use irssi_robustirc.Base.Int.{pos, sub_ℕ, ltb_ℤ}
use irssi_robustirc.Base.Text.{Str}
use irssi_robustirc.Network.{BackoffState, is_available, Search, found, none_before, scan}

module _ (backoff : Str → Option BackoffState) (now : ℕ) where
  -- A connection to the server is allowed now.
  abbrev pub IsUp : Str → Type 0
  IsUp s = is_available (backoff s) now ≡ true

  -- The server waits for a later time.
  abbrev pub IsDown : Str → Type 0
  IsDown s = (b : BackoffState) × (backoff s ≡ some b) × (now < b.next)

  -- The seconds that a server still waits.
  abbrev pub wait_of : Option BackoffState → ℕ
  wait_of none = 0
  wait_of (some b) = b.next - now

  -- `if (wait < soonest) soonest = wait;`
  abbrev pub shorter : ℕ → Str → ℕ
  shorter m s = if ltb (wait_of (backoff s)) m then wait_of (backoff s) else m

  -- The shortest wait of the servers, at most `m`.
  unfoldable pub shortest : ℕ → List Str → ℕ
  shortest m [] = m
  shortest m (s ∷ after) = shortest (shorter m s) after

  abbrev pub Scanned : ℕ → List Str → List Str → List Str × Search → Type 0
  Scanned m before after (queue, r) =
      ((s : Str) × (xs : List Str) × (queue ≡ s ∷ xs)
        × (r ≡ found s)
        × IsUp s
        × Perm (before ++ after) queue)
      ⊎ ((queue ≡ before ++ after) × (r ≡ none_before (pos (shortest m after))) × All IsDown after)

  pub IsUp-or-IsDown : (s : Str) → IsUp s ⊎ IsDown s
  IsUp-or-IsDown s = elim (Option-cases (backoff s)) [
    | inl e ↦ inl (rw e refl)
    | inr (b, e) ↦ elim (Bool-cases (leb b.next now)) [
      | inl h ↦ inl (rw e h)
      | inr h ↦ inr (b, e, ground arith)
    ]
  ]

  pub not-up_of_down : (s : Str) → IsDown s → is_available (backoff s) now ≡ false
  not-up_of_down s (b, e, h) = rw e (ground arith)

  scan_up :
      (k m : ℕ) (before : List Str) (s : Str) (after : List Str)
      → IsUp s
      → scan backoff (λ _. now) k (pos m) before (s ∷ after) ≡ (s ∷ (before ++ after), found s)
  unfolding scan
  scan_up k m before s after h = elim (Option-cases (backoff s)) [
    | inl e ↦ rw (e, scan) refl
    | inr (b, e) ↦ let up : leb b.next now ≡ true = rw e at h in rw (e, scan) (rw up refl)
  ]

  scan_down :
      (k m : ℕ) (before : List Str) (s : Str) (after : List Str)
      → IsDown s
      → scan backoff (λ _. now) k (pos m) before (s ∷ after)
        ≡ scan backoff (λ _. now) (suc (suc k)) (pos (shorter m s)) (before ++ s ∷ []) after
  unfolding scan
  scan_down k m before s after (b, e, h) = rw (e, scan) (rw (down, wait, shorter) refl)
    where
      down : leb b.next now ≡ false
      down = ground arith

      wait : sub_ℕ b.next now ≡ pos (b.next - now)
      wait = ground arith

      shorter :
          (if ltb_ℤ (pos (b.next - now)) (pos m) then pos (b.next - now) else pos m)
          ≡ pos (if ltb (b.next - now) m then b.next - now else m)
      shorter = ground arith

  Scanned-snoc :
      (m : ℕ) (before : List Str) (s : Str) (after : List Str) (r : List Str × Search)
      → IsDown s
      → Scanned (shorter m s) (before ++ s ∷ []) after r
      → Scanned m before (s ∷ after) r
  unfolding shortest
  Scanned-snoc m before s after (queue, r) down (inl (x, xs, e, f, up, p)) =
      inl (x, xs, e, f, up, rw (← append_assoc before (s ∷ []) after) p)
  Scanned-snoc m before s after (queue, r) down (inr (e, f, rest)) =
      inr (e ∙ append_assoc before (s ∷ []) after, f, (down, rest))

  pub scan-Scanned :
      (k m : ℕ) (before after : List Str)
      → Scanned m before after (scan backoff (λ _. now) k (pos m) before after)
  unfolding scan shortest
  scan-Scanned k m before [] = inr (sym (append-nil before), refl, tt)
  scan-Scanned k m before (s ∷ after) = elim (IsUp-or-IsDown s) [
    | inl up ↦
        rw (scan_up k m before s after up)
          (inl (s, before ++ after, refl, refl, up, perm_middle before after))
    | inr down ↦ rw (scan_down k m before s after down) (
        Scanned-snoc m before s after _ down
          (scan-Scanned (suc (suc k)) (shorter m s) (before ++ s ∷ []) after))
  ]
