-- ===== src/Tenancy/Quota/History.antt =====
-- The calls of `TenantAttributionStore` of app/gateway/tenant.py, and the reservations that were not
-- refunded, as a log beside it.
use ai_runtime_platform.Base.{
  ℕ, ◌≤◌, String, ◌≡◌, refl, false, Option, none, some, List, [], ◌∷◌, ◌++◌, arith, str_eq,
  if◌then◌else◌, Bool-cases, inl, inr, eq_iff, eq_refl,
}
use ai_runtime_platform.Dict.{Dict, lookup, insert, erase, Distinct, erase_missing}
use ai_runtime_platform.Tenancy.Quota.{
  Actual, Ask, Clock, QuotaReservation, TenantAttributionStore, reserve_request, refund_reservation,
  reconcile_usage, usage_snapshot, member_or, remove,
}
use ai_runtime_platform.Tenancy.Quota.Stamps.{Ascending, Among, remove-front}

-- A call of the store. `reads` is a snapshot of a team.
pub data Call : Type 0 where
  asks : Ask → String → Clock → Call
  refunds : QuotaReservation → Clock → Call
  reconciles : QuotaReservation → Actual → Clock → Call
  reads : String → Clock → Call

abbrev pub clock_of : Call → Clock
clock_of (asks a uuid at) = at
clock_of (refunds q at) = at
clock_of (reconciles q a at) = at
clock_of (reads team at) = at

unfoldable pub perform : Call → TenantAttributionStore → TenantAttributionStore
perform (asks a uuid at) s = (reserve_request a uuid at s).1
perform (refunds q at) s = refund_reservation q at s
perform (reconciles q a at) s = (reconcile_usage q a at s).1
perform (reads team at) s = (usage_snapshot team at s).1

unfoldable pub perform_all : List Call → TenantAttributionStore → TenantAttributionStore
perform_all [] s = s
perform_all (c ∷ cs) s = perform_all cs (perform c s)

-- The reservations that were not refunded, by their member ids: the team and the time of each.
abbrev pub Log : Type 0
Log = Dict (String × ℕ)

abbrev pub note : Call → Log → Log
note (asks a uuid at) log = insert (member_or a.member_id uuid) (a.team, at.now) log
note (refunds q at) log = erase q.member_id log
note (reconciles q a at) log = log
note (reads team at) log = log

abbrev pub note_all : List Call → Log → Log
note_all [] log = log
note_all (c ∷ cs) log = note_all cs (note c log)

-- The times of a team's reservations in the log.
abbrev pub times_of : String → Log → List ℕ
times_of team [] = []
times_of team ((k, (t, n)) ∷ log) =
    let rest = times_of team log in if str_eq t team then n ∷ rest else rest

abbrev pub OfTeam : String → Option (String × ℕ) → Type 0
OfTeam team none = Unit {0}
OfTeam team (some (t, n)) = t ≡ team

-- A reservation draws a member id that no other has, and a refund names the reservation's team.
abbrev pub Fits : Call → Log → Type 0
Fits (asks a uuid at) log = lookup (member_or a.member_id uuid) log ≡ none
Fits (refunds q at) log = OfTeam q.team (lookup q.member_id log)
Fits (reconciles q a at) log = Unit {0}
Fits (reads team at) log = Unit {0}

-- Such calls, by a clock that does not go back, from `last` to `now`.
abbrev pub InOrder : ℕ → Log → List Call → ℕ → Type 0
InOrder last log [] now = last ≤ now
InOrder last log (c ∷ cs) now =
    (last ≤ (clock_of c).now) × Fits c log × InOrder (clock_of c).now (note c log) cs now

abbrev pub time_of : Option (String × ℕ) → Option ℕ
time_of none = none
time_of (some (t, n)) = some n

pub times_of-insert :
    (team k owner : String) (n : ℕ) (log : Log)
    → lookup k log ≡ none
    → times_of team (insert k (owner, n) log)
      ≡ (if str_eq owner team then times_of team log ++ n ∷ [] else times_of team log)
times_of-insert team k owner n [] fresh = ground arith
times_of-insert team k owner n ((j, (t, m)) ∷ log) fresh =
    ground (arith, fresh, times_of-insert team k owner n log)

times_of-Among :
    (team k : String) (n : ℕ) (log : Log)
    → lookup k log ≡ some (team, n)
    → Among n (times_of team log)
times_of-Among team k n [] found = ground (arith, found)
times_of-Among team k n ((j, (t, m)) ∷ log) found =
    ground (arith, found, times_of-Among team k n log, eq_refl team)

pub times_of-erase_other :
    (team k owner : String) (n : ℕ) (log : Log)
    → Distinct log
    → lookup k log ≡ some (owner, n)
    → str_eq owner team ≡ false
    → times_of team (erase k log) ≡ times_of team log
times_of-erase_other team k owner n [] h found other = refl
times_of-erase_other team k owner n ((j, (t, m)) ∷ log) h found other = ground (
  arith,
  found,
  other,
  h.0,
  eq_iff j k,
  times_of-erase_other team k owner n log h.1,
  erase_missing k log,
)

pub times_of-erase :
    (team k : String) (n : ℕ) (log : Log)
    → Distinct log
    → Ascending (times_of team log)
    → lookup k log ≡ some (team, n)
    → times_of team (erase k log) ≡ remove n (times_of team log)
unfolding remove
times_of-erase team k n [] h up found = ground (arith, found)
times_of-erase team k n ((j, (t, m)) ∷ log) h up found = elim (Bool-cases (str_eq j k)) [
  | inl here ↦
      let gone : lookup k log ≡ none = ground (arith, h.0, here, eq_iff j k) in
      ground (arith, here, found, erase_missing k log gone, eq_refl team)
  | inr there ↦
      let found' : lookup k log ≡ some (team, n) = ground (arith, found, there) in
      elim (Bool-cases (str_eq t team)) [
        | inl same ↦
            let up' = rw same at up in
            let rest = times_of-erase team k n log h.1 up'.1 found' in
            let among = times_of-Among team k n log found' in
            let front = remove-front m (times_of team log) up'.1 up'.0 in
            rw (there, same) (ground (arith, rest, among, front))
        | inr other ↦
            let up' = rw other at up in
            rw (there, other) (times_of-erase team k n log h.1 up' found')
      ]
]
