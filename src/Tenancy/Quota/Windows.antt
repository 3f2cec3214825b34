-- ===== src/Tenancy/Quota/Windows.antt =====
-- The requests of the last minute, as `TenantAttributionStore` of app/gateway/tenant.py counts them.
use ai_runtime_platform.Base.{
  ℕ, suc, ◌≤◌, String, ◌≡◌, refl, true, false, Option, none, some, List, [], ◌∷◌, ◌++◌, arith,
  length, length-append, str_eq, if◌then◌else◌, Bool-cases, inl, inr, eq_iff,
}
use ai_runtime_platform.Dict.{
  lookup, insert, erase, get_or, Distinct, lookup-insert, lookup-erase, insert-Distinct,
  erase-Distinct, erase_missing, get_or-insert,
}
use ai_runtime_platform.Tenancy.Quota.{
  Ask, Clock, QuotaReservation, TenantAttributionStore, TenantUsage, new_store, new_usage,
  window_seconds, prune_window, roll_day, get_usage, put_usage, count_request, reserve_request,
  refund_reservation, reconcile_usage, usage_snapshot, member_or, remove_stamp,
}
use ai_runtime_platform.Tenancy.Quota.Stamps.{
  recent, prune_window-recent, IsLog, IsLog-later, IsLog-prune, IsLog-append, IsLog-remove,
}
use ai_runtime_platform.Tenancy.Quota.History.{
  Call, asks, refunds, reconciles, reads, clock_of, perform, perform_all, Log, note, note_all,
  times_of, OfTeam, Fits, InOrder, time_of, times_of-insert, times_of-erase_other, times_of-erase,
}

abbrev kept_times : String → TenantAttributionStore → List ℕ
kept_times team s = (get_or team new_usage s.usage).request_times

request_times-roll_day :
    (today : ℕ) (u : TenantUsage) → (roll_day today u).request_times ≡ u.request_times
unfolding roll_day
request_times-roll_day today u = ground arith

request_times-get_usage :
    (team : String) (at : Clock) (s : TenantAttributionStore)
    → (get_usage team at s).request_times ≡ prune_window (kept_times team s) at.now window_seconds
unfolding get_usage
request_times-get_usage team at s =
    request_times-roll_day at.today (record (get_or team new_usage s.usage) {
      request_times = prune_window (kept_times team s) at.now window_seconds;
    })

kept_times-put_usage :
    (team owner : String) (u : TenantUsage) (s : TenantAttributionStore)
    → kept_times team (put_usage owner u s)
      ≡ (if str_eq owner team then u.request_times else kept_times team s)
unfolding put_usage
kept_times-put_usage team owner u s = ground (arith, get_or-insert owner team new_usage u s.usage)

-- The log of all teams, and what the store keeps of one.
record Keeps (team : String) (log : Log) (last : ℕ) (s : TenantAttributionStore) : Type 0 where
  is_log : IsLog (times_of team log) last (kept_times team s)
  distinct : Distinct log
  members : (k : String) → lookup k s.members ≡ time_of (lookup k log)

module _ (team : String) (log : Log) (last : ℕ) (s : TenantAttributionStore) where
  -- A usage that is put with the times `times`, where the team's log becomes `mine`.
  put-IsLog :
      (owner : String) (mine times : List ℕ) (c : ℕ)
      → last ≤ c
      → IsLog (times_of team log) last (kept_times team s)
      → (str_eq owner team ≡ true → IsLog mine c times)
      → IsLog
          (if str_eq owner team then mine else times_of team log)
          c
          (if str_eq owner team then times else kept_times team s)
  put-IsLog owner mine times c h i put = elim (Bool-cases (str_eq owner team)) [
    | inl same ↦ rw same (put same)
    | inr other ↦ rw other (IsLog-later (times_of team log) (kept_times team s) last c h i)
  ]

  get_usage-IsLog :
      (owner : String) (at : Clock)
      → last ≤ at.now
      → IsLog (times_of team log) last (kept_times team s)
      → str_eq owner team ≡ true
      → IsLog (times_of team log) at.now (get_usage owner at s).request_times
  get_usage-IsLog owner at h i same =
      rw (request_times-get_usage owner at s, (eq_iff owner team).0 same)
        (IsLog-prune (times_of team log) (kept_times team s) last at.now h i)

  asks-Keeps :
      (a : Ask) (uuid : String) (at : Clock)
      → last ≤ at.now
      → lookup (member_or a.member_id uuid) log ≡ none
      → Keeps team log last s
      → Keeps team (note (asks a uuid at) log) at.now (perform (asks a uuid at) s)
  unfolding perform reserve_request count_request put_usage
  asks-Keeps a uuid at h fresh k =
      let mid = member_or a.member_id uuid in
      let times = (get_usage a.team at s).request_times in
      let u = count_request at.now a (get_usage a.team at s) in
      record {
        is_log =
            rw
              (
                times_of-insert team mid a.team at.now log fresh,
                kept_times-put_usage team a.team u
                    (record s { members = insert mid at.now s.members }),
              )
              (put-IsLog a.team (times_of team log ++ at.now ∷ []) (times ++ at.now ∷ []) at.now h
                k.is_log
                (λ same.
                  IsLog-append (times_of team log) times at.now
                    (get_usage-IsLog a.team at h k.is_log same)));
        distinct = insert-Distinct mid (a.team, at.now) log k.distinct;
        members = λ j. ground (
          arith,
          k.members j,
          lookup-insert mid j at.now s.members,
          lookup-insert mid j (a.team, at.now) log,
        );
      }

  -- A call that only brings the usage of a team up to date.
  updates-Keeps :
      (owner : String) (at : Clock) (u : TenantUsage)
      → last ≤ at.now
      → u.request_times ≡ (get_usage owner at s).request_times
      → Keeps team log last s
      → Keeps team log at.now (put_usage owner u s)
  unfolding put_usage
  updates-Keeps owner at u h same_times k = record {
    is_log =
        rw (kept_times-put_usage team owner u s, same_times)
          (elim (Bool-cases (str_eq owner team)) [
            | inl same ↦ rw same (get_usage-IsLog owner at h k.is_log same)
            | inr other ↦
                rw other
                  (IsLog-later (times_of team log) (kept_times team s) last at.now h k.is_log)
          ]);
    distinct = k.distinct;
    members = k.members;
  }

  refund-IsLog :
      (q : QuotaReservation) (at : Clock) (entry : Option (String × ℕ))
      → last ≤ at.now
      → lookup q.member_id log ≡ entry
      → OfTeam q.team entry
      → Keeps team log last s
      → IsLog (times_of team (erase q.member_id log)) at.now (
          if str_eq q.team team
          then remove_stamp (time_of entry) (get_usage q.team at s).request_times
          else kept_times team s)
  refund-IsLog q at none h missing of_team k =
      rw (erase_missing q.member_id log missing) (elim (Bool-cases (str_eq q.team team)) [
        | inl same ↦ rw same (get_usage-IsLog q.team at h k.is_log same)
        | inr other ↦
            rw other (IsLog-later (times_of team log) (kept_times team s) last at.now h k.is_log)
      ])
  refund-IsLog q at (some (t, n)) h found of_team k = elim (Bool-cases (str_eq q.team team)) [
    | inl same ↦
        let mine : lookup q.member_id log ≡ some (team, n) =
          ground (arith, found, of_team, same, eq_iff q.team team) in
        rw (same, times_of-erase team q.member_id n log k.distinct k.is_log.logged mine)
          (IsLog-remove (times_of team log) (get_usage q.team at s).request_times at.now n
            (get_usage-IsLog q.team at h k.is_log same))
    | inr other ↦
        let apart : str_eq t team ≡ false = rw of_team other in
        rw (other, times_of-erase_other team q.member_id t n log k.distinct found apart)
          (IsLog-later (times_of team log) (kept_times team s) last at.now h k.is_log)
  ]

  refunds-Keeps :
      (q : QuotaReservation) (at : Clock)
      → last ≤ at.now
      → OfTeam q.team (lookup q.member_id log)
      → Keeps team log last s
      → Keeps team (note (refunds q at) log) at.now (perform (refunds q at) s)
  unfolding perform refund_reservation put_usage
  refunds-Keeps q at h of_team k = record {
    is_log =
        rw (kept_times-put_usage team q.team _ _, k.members q.member_id)
          (refund-IsLog q at (lookup q.member_id log) h refl of_team k);
    distinct = erase-Distinct q.member_id log k.distinct;
    members = λ j.
        ground (
          arith,
          k.members j,
          lookup-erase q.member_id j s.members,
          lookup-erase q.member_id j log,
        );
  }

perform-Keeps :
    (team : String) (log : Log) (last : ℕ) (c : Call) (s : TenantAttributionStore)
    → last ≤ (clock_of c).now
    → Fits c log
    → Keeps team log last s
    → Keeps team (note c log) (clock_of c).now (perform c s)
unfolding perform reconcile_usage usage_snapshot
perform-Keeps team log last (asks a uuid at) s h fits k =
    asks-Keeps team log last s a uuid at h fits k
perform-Keeps team log last (refunds q at) s h fits k = refunds-Keeps team log last s q at h fits k
perform-Keeps team log last (reconciles q a at) s h fits k =
    updates-Keeps team log last s q.team at _ h refl k
perform-Keeps team log last (reads owner at) s h fits k =
    updates-Keeps team log last s owner at _ h refl k

perform_all-Keeps :
    (team : String) (log : Log) (last now : ℕ) (cs : List Call) (s : TenantAttributionStore)
    → InOrder last log cs now
    → Keeps team log last s
    → Keeps team (note_all cs log) now (perform_all cs s)
unfolding perform_all
perform_all-Keeps team log last now [] s h k = record {
  is_log = IsLog-later (times_of team log) (kept_times team s) last now h k.is_log;
  distinct = k.distinct;
  members = k.members;
}
perform_all-Keeps team log last now (c ∷ cs) s (h, fits, later) k =
    perform_all-Keeps team (note c log) (clock_of c).now now cs (perform c s) later
      (perform-Keeps team log last c s h fits k)

-- After any calls on a new store, by a clock that does not go back, where no two reservations share
-- a member id and a refund names the team of its reservation: a reservation reports as requests of
-- the last minute the request itself and those of its team before it that are at most a window old
-- and were not refunded, whatever is reconciled or read in between and whatever other teams do. No
-- request is counted for longer, and none is dropped earlier.
pub window_counts :
    (cs : List Call) (a : Ask) (uuid : String) (at : Clock)
    → InOrder 0 [] cs at.now
    → (reserve_request a uuid at (perform_all cs new_store)).0.requests_last_minute
      ≡ suc (length (recent at.now (times_of a.team (note_all cs []))))
unfolding reserve_request count_request
window_counts cs a uuid at h =
    let s = perform_all cs new_store in
    let k = perform_all-Keeps a.team [] 0 at.now cs new_store h (record {
      is_log = record {
        ordered = tt;
        past = tt;
        logged = tt;
        logged_past = tt;
        same = λ now later. refl;
      };
      distinct = tt;
      members = λ j. refl;
    }) in
    rw
      (
        request_times-get_usage a.team at s,
        prune_window-recent at.now (kept_times a.team s) k.is_log.ordered,
        k.is_log.same at.now (omega arith),
      )
      (omega
        (arith, length-append {0} (recent at.now (times_of a.team (note_all cs []))) (at.now ∷ [])))
