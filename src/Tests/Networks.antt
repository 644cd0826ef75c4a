-- ===== src/Tests/Networks.antt =====
-- The network table at concrete inputs.
use mathlib.Core.List.{Perm}
use irssi_robustirc.Base.{
  ℕ, ◌+◌, ◌^◌, ◌≤◌, ◌<◌, ◌≡◌, ◌≢◌, refl, ◌⊎◌, inl, inr, ite, true, false, Option, some, List, [],
  ◌∷◌, ltb, if◌then◌else◌, arith, length, All,
}
use irssi_robustirc.Base.Tables.{empty, insert, insert_self, insert-cases}
use irssi_robustirc.Base.Text.{Str, Str-discrete, codes}
use irssi_robustirc.Network.{
  BackoffState, NetworkCtx, Networks, call, later, is_available, network_init, network_server,
  network_failed, network_succeeded, update_servers, network_resolve, strip_targets, resolved,
  asked,
}
use irssi_robustirc.Network.Waiting.{Answers, network_server-Answers}
use irssi_robustirc.Network.Backoff.{
  failures, failures_back_off, network_succeeded-up, succeeded-failed,
}
use irssi_robustirc.Network.Membership.{Lists, update_servers_effect}
use irssi_robustirc.Network.Bounded.{IsSound, IsCappedCtx, reachable-IsSound, run, end_of, Call}
use irssi_robustirc.Network.Retry.{delay_bounded, retry_runs}
use irssi_robustirc.Network.Resolving.{resolve-server, resolve_again, table_after}
use irssi_robustirc.Tests.Ascii.{ascii, lower, lower_twice}

abbrev address : Str
address = codes "robustirc.net"

abbrev first : Str
first = codes "a:1"

abbrev second : Str
second = codes "b:2"

abbrev waits_to : ℕ → BackoffState
waits_to t = record { exponent = 1; next = t }

-- Both servers have failed: one waits until 105, the other until 103.
abbrev busy_backoff : Str → Option BackoffState
busy_backoff =
    insert Str-discrete first (waits_to 105) (insert Str-discrete second (waits_to 103) empty)

abbrev busy : NetworkCtx
busy = record { servers = first ∷ second ∷ []; backoff = busy_backoff }

abbrev key : Str
key = lower address

abbrev table : Networks
table = insert Str-discrete key busy empty

busy_known : table (ascii.strdown address) ≡ some busy
unfolding ascii
busy_known = insert_self Str-discrete key busy empty

busy_later : (network_server ascii (λ _. 100) false address true table).1 ≡ later 3
unfolding network_server ascii Str-discrete
busy_later = refl

busy_again : (network_server ascii (λ _. 103) false address true table).1 ≡ call second
unfolding network_server ascii Str-discrete
busy_again = refl

first_waits : busy_backoff first ≡ some (waits_to 105)
first_waits =
    insert_self Str-discrete first (waits_to 105) (insert Str-discrete second (waits_to 103) empty)

network_server-Answers_example :
    (queue : List Str) × Answers busy_backoff 100 false
      (first ∷ second ∷ [])
      queue
      (network_server ascii (λ _. 100) false address true table).1
    × Perm (first ∷ second ∷ []) queue
    × ((network_server ascii (λ _. 100) false address true table).0
        ≡ insert Str-discrete (ascii.strdown address) (record busy { servers = queue }) table)
network_server-Answers_example =
    network_server-Answers ascii 100 false address true table busy first (second ∷ []) busy_known
      refl (rw first_waits (omega arith))

busy_capped : IsCappedCtx 100 busy
busy_capped t b e =
    elim (insert-cases Str-discrete first (waits_to 105)
      (insert Str-discrete second (waits_to 103) empty) t e) [
        | inl (_, same) ↦ rw (← same) (omega arith)
        | inr old ↦ elim (insert-cases Str-discrete second (waits_to 103) empty t old) [
          | inl (_, same) ↦ rw (← same) (omega arith)
          | inr nothing ↦ cc
        ]
      ]

table-IsSound : IsSound ascii 100 table
unfolding ascii
table-IsSound k c e = elim (insert-cases Str-discrete key busy empty k e) [
  | inl (here, same) ↦ (rw (← here) (lower_twice address), rw (← same) busy_capped)
  | inr nothing ↦ cc
]

delay_bounded_example : (0 < 3) × (3 ≤ 70)
delay_bounded_example =
    delay_bounded ascii 100 false address true table busy first (second ∷ []) 3 table-IsSound
      busy_known refl busy_later

retry_runs_example :
    (y : Str) × ((network_server ascii
        (λ _. 100 + 3)
        false
        address
        true
        (network_server ascii (λ _. 100) false address true table).0).1
      ≡ call y)
    × (is_available (busy_backoff y) (100 + 3) ≡ true)
retry_runs_example =
    retry_runs ascii 100 address true table busy first (second ∷ []) 3 table-IsSound busy_known refl
      busy_later

-- A network that was just resolved.
abbrev idle : NetworkCtx
idle = record { servers = first ∷ second ∷ []; backoff = empty }

abbrev idle_table : Networks
idle_table = insert Str-discrete key idle empty

idle_known : idle_table (ascii.strdown address) ≡ some idle
unfolding ascii
idle_known = insert_self Str-discrete key idle empty

failures_back_off_example :
    (ctx' : NetworkCtx) × (b : BackoffState) × (network_failed ascii 130 4 address first
        (failures ascii address first ((100, 7) ∷ (110, 1) ∷ []) idle_table)
        (ascii.strdown address)
      ≡ some ctx')
    × (ctx'.servers ≡ first ∷ second ∷ [])
    × (ctx'.backoff first ≡ some b)
    × (b.exponent ≡ 3)
    × (130 + 2 ^ b.exponent ≤ b.next)
    × (b.next ≤ 130 + 2 ^ b.exponent + b.exponent)
failures_back_off_example =
    failures_back_off ascii address first ((100, 7) ∷ (110, 1) ∷ []) 130 4 idle_table idle
      idle_known refl

succeeded-failed_example :
    network_succeeded ascii address first (network_failed ascii 100 3 address first table)
    ≡ network_succeeded ascii address first table
succeeded-failed_example = succeeded-failed ascii 100 3 address first table

network_succeeded-up_example :
    (ctx' : NetworkCtx) × (network_succeeded ascii address first table (ascii.strdown address)
      ≡ some ctx')
    × (ctx'.servers ≡ first ∷ second ∷ [])
    × ((now : ℕ) → is_available (ctx'.backoff first) now ≡ true)
    × ((other : Str) → first ≢ other → ctx'.backoff other ≡ busy_backoff other)
    × ((k : Str)
        → ascii.strdown address ≢ k
        → network_succeeded ascii address first table k ≡ table k)
network_succeeded-up_example = network_succeeded-up ascii address first table busy busy_known

update_servers_effect_example :
    (queue : List Str) × (update_servers ascii address
        (some (codes "c:3" ∷ []))
        table
        (ascii.strdown address)
      ≡ some (record busy { servers = queue }))
    × ((All (Lists ascii (first ∷ second ∷ [])) (codes "c:3" ∷ [])
          × (queue ≡ first ∷ second ∷ [])
          × (update_servers ascii address (some (codes "c:3" ∷ [])) table ≡ table))
        ⊎ ((¬ All (Lists ascii (first ∷ second ∷ [])) (codes "c:3" ∷ []))
            × (queue ≡ codes "c:3" ∷ [])))
    × All (Lists ascii queue) (codes "c:3" ∷ [])
update_servers_effect_example =
    update_servers_effect ascii address (codes "c:3" ∷ []) table busy busy_known

abbrev history : List (ℕ × Call)
history =
    (0, Call.resolve false (codes "a:1,b:2"))
    ∷ (3, Call.fail 5 (codes "a:1,b:2") first)
    ∷ (1, Call.serve (λ _. 104) false (codes "A:1,B:2") true)
    ∷ []

reachable-IsSound_example :
    IsSound ascii (end_of ascii 100 history) (run ascii 100 history network_init)
reachable-IsSound_example = reachable-IsSound ascii 100 history

abbrev several : Str
several = codes "a:1, ,b:2"

resolve-server_example :
    let after = table_after ascii several [] network_init in
    ((network_resolve ascii false several network_init).1 ≡ resolved)
    × (after several ≡ some (record { servers = codes "a:1" ∷ codes "b:2" ∷ []; backoff = empty }))
    × ((key : Str) → several ≢ key → after key ≡ network_init key)
    × ((network_server ascii (λ _. 5) false (codes "A:1, ,B:2") true after).1 ≡ call first)
unfolding ascii network_init
resolve-server_example =
    resolve-server ascii (λ _. 5) false several (codes "A:1, ,B:2") true [] network_init refl refl

resolve_again_example :
    network_resolve ascii false (codes "RobustIRC.net") table
    ≡ ite
        (Str-discrete (ascii.strdown (codes "RobustIRC.net")) (codes "RobustIRC.net"))
        (table, resolved)
        (if ltb 1 (length (ascii.split_commas (codes "RobustIRC.net")))
          then (
            insert Str-discrete
                (ascii.strdown (codes "RobustIRC.net"))
                (record {
                  servers = strip_targets ascii (ascii.split_commas (codes "RobustIRC.net"));
                  backoff = empty;
                })
                table,
            resolved,
          )
          else (table, asked))
unfolding ascii
resolve_again_example =
    resolve_again ascii 100 false (codes "RobustIRC.net") table busy table-IsSound busy_known
