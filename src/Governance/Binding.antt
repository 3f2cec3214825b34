-- ===== src/Governance/Binding.antt =====
-- About `bind_signed_decision` of app/gateway/decision_token.py.
use ai_runtime_platform.Base.{
  ◌<◌, String, ◌≡◌, ◌≢◌, ◌⊎◌, sym, subst, ◌∙◌, ap, Bool, true, false, not, ◌&&◌, Option, none, some,
  List, [], ◌∷◌, arith, str_eq, eq_iff, All, Result, ok,
}
use ai_runtime_platform.Dict.{lookup}
use ai_runtime_platform.Http.{HttpError}
use ai_runtime_platform.Int.{pos}
use ai_runtime_platform.Replay.{
  InMemoryDecisionReplayStore, Token, binding_value, consume, expiry_of,
}
use ai_runtime_platform.Replay.SingleUse.{
  IsSound, consume_new, refused_again, used_stays, consume-IsSound,
}
use ai_runtime_platform.Governance.{
  Claims, Clocks, Evaluation, Local, answer_tests, bind_claims, bind_signed_decision, derive_jti,
  differ, first_nonempty, local_tests, merge_token_claims, normalize_digest, raise_first, token_of,
  ttl_of, use_up,
}

raise_first-ok :
    (tests : List (Bool × HttpError))
    → raise_first tests ≡ ok record {}
    → All (λ (t : Bool × HttpError). t.0 ≡ false) tests
unfolding raise_first
raise_first-ok [] h = record {}
raise_first-ok ((test, error) ∷ tests) h = ground (arith, h, raise_first-ok tests)

-- Two texts agree when one says nothing, or both say the same.
abbrev pub Agree : String → String → Type 0
Agree a b = (a ≡ "") ⊎ ((b ≡ "") ⊎ (a ≡ b))

abbrev pub Matches : String → String → Type 0
Matches own expected = (expected ≡ "") ⊎ (own ≡ expected)

differ-Agree : (a b : String) → differ a b ≡ false → Agree a b
differ-Agree a b h = ground (arith, h, eq_iff a "", eq_iff b "", eq_iff a b)

tested-Matches :
    (own expected : String)
    → (not (str_eq expected "") && not (str_eq own expected)) ≡ false
    → Matches own expected
tested-Matches own expected h = ground (arith, h, eq_iff expected "", eq_iff own expected)

some_inj :
    (s t : InMemoryDecisionReplayStore)
    → ◌≡◌ {A = Option InMemoryDecisionReplayStore} (some s) (some t)
    → s ≡ t
some_inj s t h = ap (λ (o : Option InMemoryDecisionReplayStore). elim o [ none ↦ s | some x ↦ x ]) h

module _ (fold : String → String) (sha256_hex : String → String)
    (verify : String → Option Claims) where
  bind_claims_lem :
      (required : Bool) (clocks : Clocks) (token : String) (c : Claims) (e : Evaluation) (l : Local)
      (s : Option InMemoryDecisionReplayStore)
      → e.decision_token ≡ some token
      → str_eq token "" ≡ false
      → verify token ≡ some c
      → bind_signed_decision fold sha256_hex verify required clocks e l s
        ≡ bind_claims fold sha256_hex verify clocks token c e l s
  unfolding bind_signed_decision
  bind_claims_lem required clocks token c e l s given full verified =
      ground (arith, given, full, verified)

  tests_passed :
      (clocks : Clocks) (token : String) (c : Claims) (e e' : Evaluation) (l : Local)
      (s : Option InMemoryDecisionReplayStore)
      → (bind_claims fold sha256_hex verify clocks token c e l s).1 ≡ ok e'
      → (raise_first (answer_tests fold sha256_hex verify c e) ≡ ok record {})
        × (raise_first (local_tests c e l) ≡ ok record {})
        × (bind_claims fold sha256_hex verify clocks token c e l s
            ≡ use_up fold sha256_hex verify clocks
                (token_of fold sha256_hex verify clocks token c l)
                (merge_token_claims e c)
                s)
  unfolding bind_claims
  tests_passed clocks token c e e' l s h = ground (arith, h)

  -- A signed decision is accepted only for the request that it names: where the token and the
  -- answer, or the token and the request, both say a verdict, an id, a tenant, a subject or a
  -- model, they say the same; and the digest that the token, or else the answer, gives is the
  -- request's own.
  pub request_is_bound :
      (required : Bool) (clocks : Clocks) (token : String) (c : Claims) (e e' : Evaluation)
      (l : Local) (s : Option InMemoryDecisionReplayStore)
      → e.decision_token ≡ some token
      → str_eq token "" ≡ false
      → verify token ≡ some c
      → (bind_signed_decision fold sha256_hex verify required clocks e l s).1 ≡ ok e'
      → Agree (fold c.verdict) (fold e.final_verdict)
        × Agree c.decision_id e.decision_id
        × Agree c.tenant l.tenant
        × Agree c.subject l.subject
        × Agree c.model l.model
        × Matches l.digest
            (first_nonempty (normalize_digest c.request_digest) (normalize_digest e.request_digest))
  request_is_bound required clocks token c e e' l s given full verified h =
      let same = bind_claims_lem required clocks token c e l s given full verified in
      let (of_answer, of_request, _) = tests_passed clocks token c e e' l s (
        ap (λ (p : Option InMemoryDecisionReplayStore × Result HttpError Evaluation). p.1)
          (sym same)
        ∙ h) in
      let (verdict, (id, _)) = raise_first-ok (answer_tests fold sha256_hex verify c e) of_answer in
      let (digest, (tenant, (subject, (model, _)))) =
        raise_first-ok (local_tests c e l) of_request in
      (
        differ-Agree (fold c.verdict) (fold e.final_verdict) verdict,
        differ-Agree c.decision_id e.decision_id id,
        differ-Agree c.tenant l.tenant tenant,
        differ-Agree c.subject l.subject subject,
        differ-Agree c.model l.model model,
        tested-Matches l.digest
            (first_nonempty (normalize_digest c.request_digest) (normalize_digest e.request_digest))
            digest,
      )

  use_up_ok :
      (clocks : Clocks) (t : Token) (e e' : Evaluation) (s : InMemoryDecisionReplayStore)
      → (use_up fold sha256_hex verify clocks t e (some s)).1 ≡ ok e'
      → ((consume clocks.monotonic_ms t s).1 ≡ true)
        × ((use_up fold sha256_hex verify clocks t e (some s)).0
            ≡ some (consume clocks.monotonic_ms t s).0)
  unfolding use_up
  use_up_ok clocks t e e' s h = ground (arith, h)

  bind_ok :
      (required : Bool) (clocks : Clocks) (token : String) (c : Claims) (e e' : Evaluation)
      (l : Local) (s : InMemoryDecisionReplayStore)
      → e.decision_token ≡ some token
      → str_eq token "" ≡ false
      → verify token ≡ some c
      → (bind_signed_decision fold sha256_hex verify required clocks e l (some s)).1 ≡ ok e'
      → let t = token_of fold sha256_hex verify clocks token c l in
        ((consume clocks.monotonic_ms t s).1 ≡ true)
        × ((bind_signed_decision fold sha256_hex verify required clocks e l (some s)).0
            ≡ some (consume clocks.monotonic_ms t s).0)
  bind_ok required clocks token c e e' l s given full verified h =
      let t = token_of fold sha256_hex verify clocks token c l in
      let same = bind_claims_lem required clocks token c e l (some s) given full verified in
      let part = λ (p : Option InMemoryDecisionReplayStore × Result HttpError Evaluation). p.1 in
      let store = λ (p : Option InMemoryDecisionReplayStore × Result HttpError Evaluation). p.0 in
      let passed = ap part (sym same) ∙ h in
      let (_, _, rest) = tests_passed clocks token c e e' l (some s) passed in
      let (yes_used, kept) =
        use_up_ok clocks t (merge_token_claims e c) e' s (ap part (sym rest) ∙ passed) in
      (yes_used, ap store same ∙ ap store rest ∙ kept)

  -- A signed decision that was accepted with a sound replay store is not accepted again before the
  -- time for which the store remembers it is over: the next answer whose token has the same id does
  -- not get through, whatever else it and its request say.
  pub token_used_once :
      (required : Bool) (first second : Clocks) (token token' : String) (c c' : Claims)
      (e e' again bound : Evaluation) (l l' : Local) (s s' : InMemoryDecisionReplayStore)
      → IsSound s
      → e.decision_token ≡ some token
      → str_eq token "" ≡ false
      → verify token ≡ some c
      → (bind_signed_decision fold sha256_hex verify required first e l (some s)) ≡ (some s', ok e')
      → again.decision_token ≡ some token'
      → str_eq token' "" ≡ false
      → verify token' ≡ some c'
      → str_eq
          (derive_jti fold sha256_hex verify c' token')
          (derive_jti fold sha256_hex verify c token)
        ≡ true
      → second.monotonic_ms < expiry_of first.monotonic_ms (pos (ttl_of first.seconds c.exp))
      → (bind_signed_decision fold sha256_hex verify required second again l' (some s')).1
        ≢ ok bound
  token_used_once required first second token token' c c' e e' again bound l l' s s' sound given
        full verified was given' full' verified' same_id early h =
      let t = token_of fold sha256_hex verify first token c l in
      let t' = token_of fold sha256_hex verify second token' c' l' in
      let b = binding_value t.tenant t.request_digest in
      let exp = expiry_of first.monotonic_ms t.ttl_seconds in
      let part = λ (p : Option InMemoryDecisionReplayStore × Result HttpError Evaluation). p.1 in
      let store = λ (p : Option InMemoryDecisionReplayStore × Result HttpError Evaluation). p.0 in
      let (used, kept) =
        bind_ok required first token c e e' l s given full verified (ap part was) in
      let s'_is = some_inj s' (consume first.monotonic_ms t s).0 (sym (ap store was) ∙ kept) in
      let sound' : IsSound s' =
        subst (λ x. IsSound x) (sym s'_is) (consume-IsSound first.monotonic_ms t s sound) in
      let there : lookup t.jti s'.entries ≡ some (b, exp) =
        ap (λ (x : InMemoryDecisionReplayStore). lookup t.jti x.entries) s'_is
        ∙ consume_new first.monotonic_ms t s used in
      let stays = used_stays second.monotonic_ms t.jti s' b exp sound' there early in
      let refused = refused_again second.monotonic_ms t' t.jti s' b exp stays same_id in
      let (used', _) =
        bind_ok required second token' c' again bound l' s' given' full' verified' h in
      ground (arith, refused, used')
