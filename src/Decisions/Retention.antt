-- ===== src/Decisions/Retention.antt =====
-- Runs of `put` and `patch_shadow` of `InMemoryDecisionStore` in app/gateway/decisions.py.
use ai_runtime_platform.Base.{
  ℕ, ◌≤◌, String, ◌≡◌, refl, sym, ap, ◌∙◌, true, false, some, List, [], ◌∷◌, ◌++◌, arith, eq_iff,
  eq_refl, ltb, length, if◌then◌else◌, Bool-cases, Option-cases, inl, inr,
}
use ai_runtime_platform.Dict.{
  Dict, lookup, contains, insert, Distinct, lookup-insert, insert-Distinct, erase_missing,
}
use ai_runtime_platform.Money.{Float}
use ai_runtime_platform.Decisions.{
  DecisionRecord, InMemoryDecisionStore, evict, first_with_id, get, new_store, patch_shadow, put,
  storage_key,
}

abbrev pub keys : Dict DecisionRecord → List String
keys [] = []
keys ((k, r) ∷ d) = k ∷ keys d

-- the latest entries that fit
unfoldable latest : ℕ → Dict DecisionRecord → Dict DecisionRecord
latest max_entries [] = []
latest max_entries ((k, r) ∷ d) =
    let rest = latest max_entries d in
    if ltb max_entries (length ((k, r) ∷ d)) then rest else (k, r) ∷ d

-- `order` holds the keys of `entries` in their order, no more than the limit, none twice.
pub record IsSound (s : InMemoryDecisionStore) : Type 0 where
  pub same_keys : s.order ≡ keys s.entries
  pub distinct : Distinct s.entries
  pub bounded : length s.entries ≤ s.max_entries

length-keys : (d : Dict DecisionRecord) → length (keys d) ≡ length d
length-keys [] = refl
length-keys ((k, r) ∷ d) = ground (arith, length-keys d)

evict_lem :
    (max_entries : ℕ) (d : Dict DecisionRecord)
    → Distinct d
    → evict max_entries (keys d) d ≡ (keys (latest max_entries d), latest max_entries d)
unfolding evict latest
evict_lem max_entries [] h = refl
evict_lem max_entries ((k, r) ∷ d) (fresh, h) =
    rw (eq_refl k, erase_missing k d fresh, length-keys d)
      (elim (Bool-cases (ltb max_entries (length ((k, r) ∷ d)))) [
        | inl full ↦ rw full (evict_lem max_entries d h)
        | inr fits ↦ rw fits refl
      ])

length-latest :
    (max_entries : ℕ) (d : Dict DecisionRecord) → length (latest max_entries d) ≤ max_entries
unfolding latest
length-latest max_entries [] = omega arith
length-latest max_entries ((k, r) ∷ d) = ground (arith, length-latest max_entries d)

latest-Distinct :
    (max_entries : ℕ) (d : Dict DecisionRecord) → Distinct d → Distinct (latest max_entries d)
unfolding latest
latest-Distinct max_entries [] h = h
latest-Distinct max_entries ((k, r) ∷ d) (fresh, h) =
    elim (Bool-cases (ltb max_entries (length ((k, r) ∷ d)))) [
      | inl full ↦ rw full (latest-Distinct max_entries d h)
      | inr fits ↦ rw fits (fresh, h)
    ]

keys-insert_new :
    (k : String) (r : DecisionRecord) (d : Dict DecisionRecord)
    → contains k d ≡ false
    → keys (insert k r d) ≡ keys d ++ (k ∷ [])
keys-insert_new k r [] h = refl
keys-insert_new k r ((j, q) ∷ d) h = ground (arith, h, eq_iff j k, keys-insert_new k r d)

keys-insert_old :
    (k : String) (r : DecisionRecord) (d : Dict DecisionRecord)
    → contains k d ≡ true
    → keys (insert k r d) ≡ keys d
keys-insert_old k r [] h = ground (arith, h)
keys-insert_old k r ((j, q) ∷ d) h = ground (arith, h, eq_iff j k, keys-insert_old k r d)

order_lem :
    (k : String) (r : DecisionRecord) (s : InMemoryDecisionStore)
    → IsSound s
    → (if contains k s.entries then s.order else s.order ++ (k ∷ [])) ≡ keys (insert k r s.entries)
order_lem k r s i = rw i.same_keys (elim (Bool-cases (contains k s.entries)) [
  | inl old ↦ rw old (sym (keys-insert_old k r s.entries old))
  | inr new ↦ rw new (sym (keys-insert_new k r s.entries new))
])

put_lem :
    (now : ℕ) (r : DecisionRecord) (s : InMemoryDecisionStore)
    → IsSound s
    → let stamped = record r { recorded_at = now } in
      let kept = latest s.max_entries (insert (storage_key stamped) stamped s.entries) in
      put now r s ≡ record s { entries = kept; order = keys kept }
unfolding put
put_lem now r s i =
    let stamped = record r { recorded_at = now } in
    let key = storage_key stamped in
    rw
      (
        order_lem key stamped s i,
        evict_lem s.max_entries (insert key stamped s.entries)
            (insert-Distinct key stamped s.entries i.distinct),
      )
      refl

put-IsSound :
    (now : ℕ) (r : DecisionRecord) (s : InMemoryDecisionStore) → IsSound s → IsSound (put now r s)
put-IsSound now r s i =
    let stamped = record r { recorded_at = now } in
    let key = storage_key stamped in
    let d = insert key stamped s.entries in
    rw (put_lem now r s i) (record {
      same_keys = refl;
      distinct = latest-Distinct s.max_entries d (insert-Distinct key stamped s.entries i.distinct);
      bounded = length-latest s.max_entries d;
    })

length-insert_old :
    (k : String) (r : DecisionRecord) (d : Dict DecisionRecord)
    → contains k d ≡ true
    → length (insert k r d) ≡ length d
length-insert_old k r d h =
    sym (length-keys (insert k r d)) ∙ ap length (keys-insert_old k r d h) ∙ length-keys d

first_with_id-contains :
    (request_id key : String) (r : DecisionRecord) (d : Dict DecisionRecord)
    → first_with_id request_id d ≡ some (key, r)
    → contains key d ≡ true
unfolding first_with_id
first_with_id-contains request_id key r [] h = ground (arith, h)
first_with_id-contains request_id key r ((j, q) ∷ d) h =
    ground (arith, h, eq_refl j, first_with_id-contains request_id key r d)

patch_shadow-IsSound :
    (request_id outcome : String) (ms : Float) (s : InMemoryDecisionStore)
    → IsSound s
    → IsSound (patch_shadow request_id outcome ms s)
unfolding patch_shadow
patch_shadow-IsSound request_id outcome ms s i =
    elim (Option-cases (first_with_id request_id s.entries)) [
      | inl missing ↦ rw (missing, patch_shadow) i
      | inr ((key, r), found) ↦
          let r' = record r { shadow_outcome = some outcome; shadow_duration_ms = some ms } in
          let there = first_with_id-contains request_id key r s.entries found in
          rw (found, patch_shadow)
            (record {
              same_keys = i.same_keys ∙ sym (keys-insert_old key r' s.entries there);
              distinct = insert-Distinct key r' s.entries i.distinct;
              bounded = omega (arith, length-insert_old key r' s.entries there, i.bounded);
            })
    ]

lookup-latest :
    (m : ℕ) (k : String) (v : DecisionRecord) (d : Dict DecisionRecord)
    → 1 ≤ m
    → length d ≤ m
    → lookup k (latest m (insert k v d)) ≡ some v
unfolding latest
lookup-latest m k v [] some_room short = ground (arith, eq_refl k)
lookup-latest m k v ((j, w) ∷ d) some_room short =
    ground
      (arith, eq_refl k, short, some_room, lookup-latest m k v d some_room, lookup-insert k k v d)

-- What changes a store.
pub data Call : Type 0 where
  puts : ℕ → DecisionRecord → Call
  patches : String → String → Float → Call

unfoldable pub run : List Call → InMemoryDecisionStore → InMemoryDecisionStore
run [] s = s
run (puts now r ∷ calls) s = run calls (put now r s)
run (patches request_id outcome ms ∷ calls) s = run calls (patch_shadow request_id outcome ms s)

run-IsSound : (calls : List Call) (s : InMemoryDecisionStore) → IsSound s → IsSound (run calls s)
unfolding run
run-IsSound [] s i = i
run-IsSound (puts now r ∷ calls) s i = run-IsSound calls (put now r s) (put-IsSound now r s i)
run-IsSound (patches request_id outcome ms ∷ calls) s i =
    run-IsSound calls (patch_shadow request_id outcome ms s)
      (patch_shadow-IsSound request_id outcome ms s i)

max_entries-run :
    (calls : List Call) (s : InMemoryDecisionStore) → (run calls s).max_entries ≡ s.max_entries
unfolding run put patch_shadow
max_entries-run [] s = refl
max_entries-run (puts now r ∷ calls) s = max_entries-run calls (put now r s)
max_entries-run (patches request_id outcome ms ∷ calls) s =
    ground (arith, max_entries-run calls (patch_shadow request_id outcome ms s))

new_store-IsSound : (m : ℕ) → IsSound (new_store m)
new_store-IsSound m = record { same_keys = refl; distinct = tt; bounded = omega arith }

-- Whatever is put and patched, the store never holds more records than its limit, its order lists
-- exactly the keys that it holds, and no key is held twice.
pub store_is_bounded :
    (m : ℕ) (calls : List Call)
    → (length (run calls (new_store m)).entries ≤ m)
      × ((run calls (new_store m)).order ≡ keys (run calls (new_store m)).entries)
      × Distinct (run calls (new_store m)).entries
store_is_bounded m calls =
    let i = run-IsSound calls (new_store m) (new_store-IsSound m) in
    (omega (arith, i.bounded, max_entries-run calls (new_store m)), i.same_keys, i.distinct)

-- With room for one record at least, the record that was put last is found by its tenant and
-- request id, with the time at which it was put, whatever had to be evicted for it.
pub latest_is_found :
    (m now : ℕ) (calls : List Call) (r : DecisionRecord)
    → 1 ≤ m
    → get r.request_id r.tenant_id false (put now r (run calls (new_store m)))
      ≡ some (record r { recorded_at = now })
unfolding get storage_key
latest_is_found m now calls r some_room =
    let s = run calls (new_store m) in
    let stamped = record r { recorded_at = now } in
    let i = run-IsSound calls (new_store m) (new_store-IsSound m) in
    let m_is = max_entries-run calls (new_store m) in
    rw
      (
        put_lem now r s i,
        lookup-latest s.max_entries (storage_key stamped) stamped s.entries
            (omega (arith, some_room, m_is)) i.bounded,
      )
      refl
