-- ===== src/Replay/SingleUse.antt =====
-- Runs of `consume` of `InMemoryDecisionReplayStore` in app/gateway/decision_replay.py.
use ai_runtime_platform.Base.{
  ℕ, ◌+◌, ◌<◌, String, ◌≡◌, refl, Bool, true, false, Option, none, some, List, [], ◌∷◌, arith,
  str_eq, eq_iff, eq_refl, leb, if◌then◌else◌, elem, Option-cases, inl, inr, All,
}
use ai_runtime_platform.Dict.{
  Dict, lookup, erase, Distinct, lookup-insert, lookup-erase, insert-Distinct, erase-Distinct,
}
use ai_runtime_platform.Replay.{
  InMemoryDecisionReplayStore, Token, binding_value, consume, expired_jtis, expiry_of,
  forget_expired, new_store, pop_each,
}

abbrev pub IsSound : InMemoryDecisionReplayStore → Type 0
IsSound s = Distinct s.entries

-- The entry that is left after those whose time has come are taken out.
abbrev pub alive : ℕ → Option (String × ℕ) → Option (String × ℕ)
alive now none = none
alive now (some (binding, exp)) = if leb exp now then none else some (binding, exp)

abbrev is_over : ℕ → Option (String × ℕ) → Bool
is_over now none = false
is_over now (some (binding, exp)) = leb exp now

elem-expired_missing :
    (now : ℕ) (k : String) (d : Dict (String × ℕ))
    → lookup k d ≡ none
    → elem k (expired_jtis now d) ≡ false
unfolding expired_jtis
elem-expired_missing now k [] h = refl
elem-expired_missing now k ((j, (b, exp)) ∷ d) h = ground (arith, elem-expired_missing now k d)

elem-expired_jtis :
    (now : ℕ) (k : String) (d : Dict (String × ℕ))
    → Distinct d
    → elem k (expired_jtis now d) ≡ is_over now (lookup k d)
unfolding expired_jtis
elem-expired_jtis now k [] h = refl
elem-expired_jtis now k ((j, (b, exp)) ∷ d) h =
    ground (arith, eq_iff j k, elem-expired_jtis now k d h.1, elem-expired_missing now k d)

lookup-pop_each :
    (k : String) (ks : List String) (d : Dict (String × ℕ))
    → lookup k (pop_each ks d) ≡ (if elem k ks then none else lookup k d)
unfolding pop_each
lookup-pop_each k [] d = refl
lookup-pop_each k (j ∷ ks) d = ground (arith, lookup-pop_each k ks (erase j d), lookup-erase j k d)

pop_each-Distinct :
    (ks : List String) (d : Dict (String × ℕ)) → Distinct d → Distinct (pop_each ks d)
unfolding pop_each
pop_each-Distinct [] d h = h
pop_each-Distinct (k ∷ ks) d h = pop_each-Distinct ks (erase k d) (erase-Distinct k d h)

lookup-forget_expired :
    (now : ℕ) (k : String) (s : InMemoryDecisionReplayStore)
    → IsSound s
    → lookup k (forget_expired now s).entries ≡ alive now (lookup k s.entries)
unfolding forget_expired
lookup-forget_expired now k s sound = ground (
  arith,
  lookup-pop_each k (expired_jtis now s.entries) s.entries,
  elem-expired_jtis now k s.entries sound,
)

forget_expired-IsSound :
    (now : ℕ) (s : InMemoryDecisionReplayStore) → IsSound s → IsSound (forget_expired now s)
unfolding forget_expired
forget_expired-IsSound now s sound = pop_each-Distinct (expired_jtis now s.entries) s.entries sound

pub consume-IsSound :
    (now : ℕ) (t : Token) (s : InMemoryDecisionReplayStore)
    → IsSound s
    → IsSound (consume now t s).0
unfolding consume
consume-IsSound now t s sound = elim (Option-cases (lookup t.jti (forget_expired now s).entries)) [
  | inl free ↦
      rw (free, consume)
        (insert-Distinct t.jti
          (binding_value t.tenant t.request_digest, expiry_of now t.ttl_seconds)
          (forget_expired now s).entries (forget_expired-IsSound now s sound))
  | inr (entry, used) ↦ rw (used, consume) (forget_expired-IsSound now s sound)
]

-- A used token stays in the cache, and is refused, until its time is over.
pub used_stays :
    (now : ℕ) (jti : String) (s : InMemoryDecisionReplayStore) (b : String) (exp : ℕ)
    → IsSound s
    → lookup jti s.entries ≡ some (b, exp)
    → now < exp
    → lookup jti (forget_expired now s).entries ≡ some (b, exp)
used_stays now jti s b exp sound used early =
    ground (arith, lookup-forget_expired now jti s sound, used, early)

consume_again :
    (now : ℕ) (t : Token) (s : InMemoryDecisionReplayStore) (b : String) (exp : ℕ)
    → lookup t.jti (forget_expired now s).entries ≡ some (b, exp)
    → consume now t s ≡ (forget_expired now s, false)
unfolding consume
consume_again now t s b exp kept = rw (kept, consume) refl

pub consume_new :
    (now : ℕ) (t : Token) (s : InMemoryDecisionReplayStore)
    → (consume now t s).1 ≡ true
    → lookup t.jti (consume now t s).0.entries
      ≡ some (binding_value t.tenant t.request_digest, expiry_of now t.ttl_seconds)
unfolding consume
consume_new now t s accepted =
    let value : String × ℕ =
      (binding_value t.tenant t.request_digest, expiry_of now t.ttl_seconds) in
    elim (Option-cases (lookup t.jti (forget_expired now s).entries)) [
      | inl free ↦
          rw (free, consume)
            (ground (
              arith,
              lookup-insert t.jti t.jti value (forget_expired now s).entries,
              eq_refl t.jti,
            ))
      | inr (entry, used) ↦ ground (arith, used, accepted)
    ]

consume_keeps :
    (now : ℕ) (t : Token) (jti : String) (s : InMemoryDecisionReplayStore) (b : String) (exp : ℕ)
    → lookup jti (forget_expired now s).entries ≡ some (b, exp)
    → lookup jti (consume now t s).0.entries ≡ some (b, exp)
unfolding consume
consume_keeps now t jti s b exp kept =
    let value : String × ℕ =
      (binding_value t.tenant t.request_digest, expiry_of now t.ttl_seconds) in
    elim (Option-cases (lookup t.jti (forget_expired now s).entries)) [
      | inl free ↦
          rw (free, consume)
            (ground (
              arith,
              lookup-insert t.jti jti value (forget_expired now s).entries,
              eq_iff t.jti jti,
              kept,
              free,
            ))
      | inr (entry, used) ↦ rw (used, consume) kept
    ]

abbrev pub one_if : Bool → ℕ
one_if true = 1
one_if false = 0

unfoldable pub consume_all :
    List (ℕ × Token) → InMemoryDecisionReplayStore → InMemoryDecisionReplayStore
consume_all [] s = s
consume_all ((now, t) ∷ calls) s = consume_all calls (consume now t s).0

-- How often the calls accept the token id.
unfoldable pub accepted : String → List (ℕ × Token) → InMemoryDecisionReplayStore → ℕ
accepted jti [] s = 0
accepted jti ((now, t) ∷ calls) s =
    let (s', yes_or_no) = consume now t s in
    let rest = accepted jti calls s' in if str_eq t.jti jti then one_if yes_or_no + rest else rest

consume_all-IsSound :
    (calls : List (ℕ × Token)) (s : InMemoryDecisionReplayStore)
    → IsSound s
    → IsSound (consume_all calls s)
unfolding consume_all
consume_all-IsSound [] s sound = sound
consume_all-IsSound ((now, t) ∷ calls) s sound =
    consume_all-IsSound calls (consume now t s).0 (consume-IsSound now t s sound)

pub refused_again :
    (now : ℕ) (t : Token) (jti : String) (s : InMemoryDecisionReplayStore) (b : String) (exp : ℕ)
    → lookup jti (forget_expired now s).entries ≡ some (b, exp)
    → str_eq t.jti jti ≡ true
    → (consume now t s).1 ≡ false
refused_again now t jti s b exp kept same =
    let t_is_jti : t.jti ≡ jti = (eq_iff t.jti jti).0 same in
    rw (consume_again now t s b exp (rw t_is_jti kept)) refl

none_accepted :
    (jti : String) (calls : List (ℕ × Token)) (s : InMemoryDecisionReplayStore) (b : String)
    (exp : ℕ)
    → IsSound s
    → lookup jti s.entries ≡ some (b, exp)
    → All (λ (call : ℕ × Token). call.0 < exp) calls
    → accepted jti calls s ≡ 0
unfolding accepted
none_accepted jti [] s b exp sound used early = refl
none_accepted jti ((now, t) ∷ calls) s b exp sound used (soon, early) =
    let kept = used_stays now jti s b exp sound used soon in
    let s' = (consume now t s).0 in
    ground (
      arith,
      none_accepted jti calls s' b exp (consume-IsSound now t s sound)
          (consume_keeps now t jti s b exp kept) early,
      refused_again now t jti s b exp kept,
    )

-- Whatever was consumed before, a token id that is accepted at some time is not accepted again by
-- any call before its time is over, for whatever tenant, request digest and lifetime.
pub single_use :
    (earlier later : List (ℕ × Token)) (now : ℕ) (t : Token)
    → (consume now t (consume_all earlier new_store)).1 ≡ true
    → All (λ (call : ℕ × Token). call.0 < expiry_of now t.ttl_seconds) later
    → accepted t.jti later (consume now t (consume_all earlier new_store)).0 ≡ 0
single_use earlier later now t first soon =
    let s = consume_all earlier new_store in
    let sound = consume_all-IsSound earlier new_store tt in
    none_accepted t.jti later (consume now t s).0 (binding_value t.tenant t.request_digest)
      (expiry_of now t.ttl_seconds) (consume-IsSound now t s sound) (consume_new now t s first) soon
