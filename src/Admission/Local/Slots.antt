-- ===== src/Admission/Local/Slots.antt =====
-- The tasks of one process that ask `TenantAdmissionController` of app/gateway/admission.py for a
-- lease of one tenant and model, in any interleaving with those of all others.
use ai_runtime_platform.Base.{ℕ, ◌+◌, String, ◌≡◌, Bool, true, false, some, str_eq, ok, err}
use ai_runtime_platform.Http.{HttpError}
use ai_runtime_platform.Tenancy.Policy.{TenantPolicyBundle}
use ai_runtime_platform.Admission.Local.{
  TenantAdmissionController, new_controller, scope_key, Exchange, enqueue_local, take_local,
  dequeue, give_back, uncount, enqueue_redis,
}

-- How many tasks stand where. Local ones: at the semaphore, with a slot or cancelled before the
-- lock, at work, and before the lock of the release. Over Redis: in the loop, and at work. Of those
-- whose release could not reach Redis only the number is kept.
pub record Tasks : Type 0 where
  pub waiting : ℕ
  pub passing : ℕ
  pub cancelled : ℕ
  pub holding : ℕ
  pub leaving : ℕ
  pub polling : ℕ
  pub leased : ℕ
  pub unreleased : ℕ

abbrev pub nobody : Tasks
nobody = record {
  waiting = 0;
  passing = 0;
  cancelled = 0;
  holding = 0;
  leaving = 0;
  polling = 0;
  leased = 0;
  unreleased = 0;
}

-- A section that a task of another scope runs.
pub data Elsewhere (scope : String)
    : TenantAdmissionController → TenantAdmissionController → Type 0 where
  enqueues :
      {c : TenantAdmissionController} (t m : String)
      → str_eq (scope_key t m) scope ≡ false
      → Elsewhere scope c (enqueue_local t m c).0
  takes :
      {c c' : TenantAdmissionController} (t m : String)
      → str_eq (scope_key t m) scope ≡ false
      → take_local (scope_key t m) c ≡ some c'
      → Elsewhere scope c c'
  dequeues :
      {c : TenantAdmissionController} (t m : String) (acquired : Bool)
      → str_eq (scope_key t m) scope ≡ false
      → Elsewhere scope c (dequeue acquired (scope_key t m) c)
  gives_back :
      {c : TenantAdmissionController} (t m : String)
      → str_eq (scope_key t m) scope ≡ false
      → Elsewhere scope c (give_back t m c)
  uncounts :
      {c : TenantAdmissionController} (t m : String)
      → str_eq (scope_key t m) scope ≡ false
      → Elsewhere scope c (uncount (scope_key t m) c)
  polls :
      {c : TenantAdmissionController} (t m : String) (answer : Exchange ℕ)
      → str_eq (scope_key t m) scope ≡ false
      → Elsewhere scope c (enqueue_redis t m answer c).0

pub data Step (tenant_id model : String)
    : TenantAdmissionController → Tasks → TenantAdmissionController → Tasks → Type 0 where
  arrive :
      {c c' : TenantAdmissionController} {t : Tasks}
      → enqueue_local tenant_id model c ≡ (c', ok tt)
      → Step tenant_id model c t c' (record t { waiting = t.waiting + 1 })
  turn_away :
      {c c' : TenantAdmissionController} {t : Tasks} {e : HttpError}
      → enqueue_local tenant_id model c ≡ (c', err e)
      → Step tenant_id model c t c' t
  cancel :
      {c : TenantAdmissionController} {t : Tasks} {n : ℕ}
      → t.waiting ≡ n + 1
      → Step tenant_id model c t c (record t { waiting = n; cancelled = t.cancelled + 1 })
  pass :
      {c c' : TenantAdmissionController} {t : Tasks} {n : ℕ}
      → t.waiting ≡ n + 1
      → take_local (scope_key tenant_id model) c ≡ some c'
      → Step tenant_id model c t c' (record t { waiting = n; passing = t.passing + 1 })
  enter :
      {c : TenantAdmissionController} {t : Tasks} {n : ℕ}
      → t.passing ≡ n + 1
      → Step tenant_id model c t
          (dequeue true (scope_key tenant_id model) c)
          (record t { passing = n; holding = t.holding + 1 })
  give_up :
      {c : TenantAdmissionController} {t : Tasks} {n : ℕ}
      → t.cancelled ≡ n + 1
      → Step tenant_id model c t
          (dequeue false (scope_key tenant_id model) c)
          (record t { cancelled = n })
  finish :
      {c : TenantAdmissionController} {t : Tasks} {n : ℕ}
      → t.holding ≡ n + 1
      → Step tenant_id model c t
          (give_back tenant_id model c)
          (record t { holding = n; leaving = t.leaving + 1 })
  leave :
      {c : TenantAdmissionController} {t : Tasks} {n : ℕ}
      → t.leaving ≡ n + 1
      → Step tenant_id model c t (uncount (scope_key tenant_id model) c) (record t { leaving = n })
  poll :
      {c c' : TenantAdmissionController} {t : Tasks} (answer : Exchange ℕ)
      → enqueue_redis tenant_id model answer c ≡ (c', ok tt)
      → Step tenant_id model c t c' (record t { polling = t.polling + 1 })
  lease :
      {c : TenantAdmissionController} {t : Tasks} {n : ℕ}
      → t.polling ≡ n + 1
      → Step tenant_id model c t
          (dequeue true (scope_key tenant_id model) (record c { redis_ok = true }))
          (record t { polling = n; leased = t.leased + 1 })
  stop_polling :
      {c : TenantAdmissionController} {t : Tasks} {n : ℕ}
      → t.polling ≡ n + 1
      → Step tenant_id model c t
          (dequeue false (scope_key tenant_id model) c)
          (record t { polling = n })
  release :
      {c : TenantAdmissionController} {t : Tasks} {n : ℕ}
      → t.leased ≡ n + 1
      → Step tenant_id model c t (uncount (scope_key tenant_id model) c) (record t { leased = n })
  fail_release :
      {c : TenantAdmissionController} {t : Tasks} {n : ℕ}
      → t.leased ≡ n + 1
      → Step tenant_id model c t
          (record c { redis_ok = false })
          (record t { leased = n; unreleased = t.unreleased + 1 })
  other :
      {c c' : TenantAdmissionController} {t : Tasks}
      → Elsewhere (scope_key tenant_id model) c c'
      → Step tenant_id model c t c' t

pub data Reachable (bundle : TenantPolicyBundle) (redis : Bool) (tenant_id model : String)
    : TenantAdmissionController → Tasks → Type 0 where
  start : Reachable bundle redis tenant_id model (new_controller bundle redis) nobody
  after :
      {c c' : TenantAdmissionController} {t t' : Tasks}
      → Reachable bundle redis tenant_id model c t
      → Step tenant_id model c t c' t'
      → Reachable bundle redis tenant_id model c' t'
