-- ===== src/Replay.antt =====
-- app/gateway/decision_replay.py: the in-process cache of used decision tokens, and the binding of
-- a token to its request. Times are milliseconds of the monotonic clock.
pub mod SingleUse
mod Witnesses
use ai_runtime_platform.Base.{
  ℕ, ◌+◌, ◌*◌, max, String, append, Bool, true, false, ◌&&◌, ◌||◌, Option, none, some, List, [],
  ◌∷◌, str_eq, leb, if◌then◌else◌,
}
use ai_runtime_platform.Dict.{Dict, lookup, insert, erase}
use ai_runtime_platform.Int.{ℤ, max_zero}

-- jti ↦ (binding, expiry)
pub record InMemoryDecisionReplayStore : Type 0 where
  pub entries : Dict (String × ℕ)

abbrev pub new_store : InMemoryDecisionReplayStore
new_store = record { entries = [] }

pub record Token : Type 0 where
  pub jti : String
  pub tenant : String
  pub request_digest : String
  pub ttl_seconds : ℤ

abbrev pub binding_value : String → String → String
binding_value tenant request_digest = append tenant (append "|" request_digest)

-- `[key for key, (_, exp) in self._entries.items() if exp <= now]`
unfoldable pub expired_jtis : ℕ → Dict (String × ℕ) → List String
expired_jtis now [] = []
expired_jtis now ((jti, (binding, exp)) ∷ d) =
    let rest = expired_jtis now d in if leb exp now then jti ∷ rest else rest

unfoldable pub pop_each : List String → Dict (String × ℕ) → Dict (String × ℕ)
pop_each [] d = d
pop_each (k ∷ ks) d = pop_each ks (erase k d)

-- `now + max(1, ttl_seconds)`
abbrev pub expiry_of : ℕ → ℤ → ℕ
expiry_of now ttl_seconds = now + max 1 (max_zero ttl_seconds) * 1000

unfoldable pub forget_expired : ℕ → InMemoryDecisionReplayStore → InMemoryDecisionReplayStore
forget_expired now s = record { entries = pop_each (expired_jtis now s.entries) s.entries }

-- `consume`. It does not await, so no other call comes in between.
unfoldable pub consume :
    ℕ → Token → InMemoryDecisionReplayStore → InMemoryDecisionReplayStore × Bool
consume now t s =
    let fresh = forget_expired now s in
    elim (lookup t.jti fresh.entries) [
      | some existing ↦ (fresh, false)
      | none ↦ (
        record {
          entries =
              insert t.jti (binding_value t.tenant t.request_digest, expiry_of now t.ttl_seconds)
                fresh.entries;
        },
        true,
      )
    ]

-- One half of `verify_token_binding`; an empty value is not compared.
abbrev pub bound : String → String → Bool
bound token expected = str_eq token "" || str_eq expected "" || str_eq token expected

unfoldable pub verify_token_binding : String → String → String → String → Bool
verify_token_binding token_tenant token_digest expected_tenant expected_digest =
    bound token_tenant expected_tenant && bound token_digest expected_digest
