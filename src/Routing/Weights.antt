-- ===== src/Routing/Weights.antt =====
-- The buckets of `select_route_target` in app/gateway/services/routing.py.
use ai_runtime_platform.Base.{
  ℕ, zero, suc, ◌+◌, ◌≤◌, ◌<◌, String, ◌≡◌, refl, ◌∙◌, sym, true, false, Option, none, some, List,
  [], ◌∷◌, map, elem, eq_refl, arith, ltb, str_eq, if◌then◌else◌, ok, inl, inr, Bool-cases,
  Option-cases,
}
use ai_runtime_platform.Routing.{
  RouteTarget, ModelRoute, total_weight, pick, picked, bucket_of, select_route_target,
  has_valid_policy, resolve_route, is_empty, model_names, names_of,
}

-- whether a bucket goes to the model
abbrev pub goes_to : String → Option String → ℕ
goes_to m none = 0
goes_to m (some model) = if str_eq model m then 1 else 0

-- How many of the `n` buckets from `first` on go to the model.
unfoldable pub chosen : String → ℕ → List RouteTarget → ℕ → ℕ → ℕ
chosen m upper ts first zero = 0
chosen m upper ts first (suc n) = goes_to m (pick upper ts first) + chosen m upper ts (first + 1) n

-- The weight of a model in a route, which may name it several times.
unfoldable pub share : String → List RouteTarget → ℕ
share m [] = 0
share m (t ∷ ts) = (if str_eq t.model m then t.weight else 0) + share m ts

suc_add : (a b : ℕ) → suc a + b ≡ suc (a + b)
suc_add a b = omega arith

add_suc : (a b : ℕ) → a + suc b ≡ a + 1 + b
add_suc a b = omega arith

chosen-split :
    (m : String) (upper : ℕ) (ts : List RouteTarget) (first a b : ℕ)
    → chosen m upper ts first (a + b) ≡ chosen m upper ts first a + chosen m upper ts (first + a) b
unfolding chosen
chosen-split m upper ts first zero b = ground arith
chosen-split m upper ts first (suc a) b =
    rw (suc_add a b, add_suc first a) (ground (arith, chosen-split m upper ts (first + 1) a b))

-- The buckets of the first target.
chosen-first :
    (m : String) (upper : ℕ) (t : RouteTarget) (ts : List RouteTarget) (first n : ℕ)
    → first + n ≤ upper + t.weight
    → chosen m upper (t ∷ ts) first n ≡ (if str_eq t.model m then n else 0)
unfolding chosen pick
chosen-first m upper t ts first zero h = ground arith
chosen-first m upper t ts first (suc n) h = ground (arith, chosen-first m upper t ts (first + 1) n)

-- The buckets after them are those of the other targets.
chosen-rest :
    (m : String) (upper : ℕ) (t : RouteTarget) (ts : List RouteTarget) (first n : ℕ)
    → upper + t.weight ≤ first
    → chosen m upper (t ∷ ts) first n ≡ chosen m (upper + t.weight) ts first n
unfolding chosen pick
chosen-rest m upper t ts first zero h = refl
chosen-rest m upper t ts first (suc n) h = ground (arith, chosen-rest m upper t ts (first + 1) n)

chosen-share :
    (m : String) (upper : ℕ) (ts : List RouteTarget)
    → chosen m upper ts upper (total_weight ts) ≡ share m ts
unfolding chosen share
chosen-share m upper [] = refl
chosen-share m upper (t ∷ ts) =
    chosen-split m upper (t ∷ ts) upper t.weight (total_weight ts)
    ∙ ground (
      arith,
      chosen-first m upper t ts upper t.weight,
      chosen-rest m upper t ts (upper + t.weight) (total_weight ts),
      chosen-share m (upper + t.weight) ts,
    )

valid_total :
    (r : ModelRoute)
    → has_valid_policy r ≡ true
    → is_empty r.targets ≡ false
    → total_weight r.targets ≡ 100
unfolding has_valid_policy
valid_total r h e = ground (arith, h, e)

-- Of the hundred buckets of a valid canary route, a model gets as many as its weight says, and the
-- bucket of a request decides which model it gets.
pub canary_shares :
    (digest : String → ℕ) (r : ModelRoute) (m request_id route_name : String)
    → has_valid_policy r ≡ true
    → is_empty r.targets ≡ false
    → (chosen m 0 r.targets 0 100 ≡ share m r.targets)
      × (bucket_of digest request_id route_name < 100)
      × (select_route_target digest r request_id route_name
          ≡ picked (pick 0 r.targets (bucket_of digest request_id route_name)))
unfolding select_route_target bucket_of
canary_shares digest r m request_id route_name valid e =
    (rw (sym (valid_total r valid e)) (chosen-share m 0 r.targets), omega arith, rw e refl)

-- A bucket below the last bound has a target.
pick_total :
    (upper : ℕ) (ts : List RouteTarget) (bucket : ℕ)
    → bucket < upper + total_weight ts
    → upper ≤ bucket
    → (m : String) × (pick upper ts bucket ≡ some m)
      × (elem m (map (λ (t : RouteTarget). t.model) ts) ≡ true)
unfolding pick
pick_total upper [] bucket h above =
    let none_left : 1 ≤ 0 = omega (arith, h, above) in ground (arith, none_left)
pick_total upper (t ∷ ts) bucket h above = elim (Bool-cases (ltb bucket (upper + t.weight))) [
  | inl early ↦ (t.model, rw early refl, rw (eq_refl t.model) refl)
  | inr late ↦
      let above' : upper + t.weight ≤ bucket = ground (arith, late) in
      let (m, found, named) = pick_total (upper + t.weight) ts bucket (omega (arith, h)) above' in
      (m, rw late found, ground (arith, named))
]

valid_names :
    (r : ModelRoute)
    → has_valid_policy r ≡ true
    → r.primary ≡ none
    → model_names r ≡ map (λ (t : RouteTarget). t.model) r.targets
unfolding model_names
valid_names r h e = rw e refl

valid_canary :
    (r : ModelRoute) → has_valid_policy r ≡ true → r.primary ≡ none → is_empty r.targets ≡ false
unfolding has_valid_policy
valid_canary r h e = ground (arith, h, e)

first_named :
    (p : String) (fallback : Option String) (ts : List RouteTarget)
    → elem p (names_of (some p) fallback ts) ≡ true
first_named p none ts = rw (eq_refl p) refl
first_named p (some fallback) ts = rw (eq_refl p) refl

valid_failover :
    (r : ModelRoute) (p : String)
    → has_valid_policy r ≡ true
    → r.primary ≡ some p
    → elem p (model_names r) ≡ true
unfolding has_valid_policy model_names
valid_failover r p h e = rw e (first_named p r.fallback r.targets)

canary_resolves :
    (digest : String → ℕ) (r : ModelRoute) (request_id route_name m : String)
    → r.primary ≡ none
    → select_route_target digest r request_id route_name
      ≡ picked (pick 0 r.targets (bucket_of digest request_id route_name))
    → pick 0 r.targets (bucket_of digest request_id route_name) ≡ some m
    → resolve_route digest (some r) request_id route_name ≡ ok (m, none)
unfolding resolve_route
canary_resolves digest r request_id route_name m e is found = rw (e, is, found) refl

-- A route that passed its validator resolves to one of its models, for every request id and
-- whatever the digest.
pub valid_route_resolves :
    (digest : String → ℕ) (r : ModelRoute) (request_id route_name : String)
    → has_valid_policy r ≡ true
    → (model : String) × (fallback : Option String) × (resolve_route digest
          (some r)
          request_id
          route_name
        ≡ ok (model, fallback))
      × (elem model (model_names r) ≡ true)
unfolding resolve_route
valid_route_resolves digest r request_id route_name valid = elim (Option-cases r.primary) [
  | inr (p, e) ↦ (p, r.fallback, rw e refl, valid_failover r p valid e)
  | inl e ↦
      let full = valid_canary r valid e in
      let (_, low, is) = canary_shares digest r "" request_id route_name valid full in
      let (m, found, named) =
        pick_total 0 r.targets (bucket_of digest request_id route_name)
          (rw (valid_total r valid full) low) (omega arith) in
      (
        m,
        none,
        canary_resolves digest r request_id route_name m e is found,
        rw (valid_names r valid e) named,
      )
]
