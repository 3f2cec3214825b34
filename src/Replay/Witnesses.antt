-- ===== src/Replay/Witnesses.antt =====
-- A token that is used twice.
use ai_runtime_platform.Base.{◌≡◌, refl, [], ◌∷◌, arith}
use ai_runtime_platform.Int.{pos}
use ai_runtime_platform.Replay.{Token, consume, expired_jtis, forget_expired, new_store, pop_each}
use ai_runtime_platform.Replay.SingleUse.{accepted, consume_all, single_use}

abbrev token : Token
token = record { jti = "d-1"; tenant = "finance"; request_digest = "aa"; ttl_seconds = pos 300 }

abbrev stolen : Token
stolen = record token { tenant = "research" }

single_use_example :
    accepted "d-1"
      ((6000, stolen) ∷ (7000, token) ∷ [])
      (consume 5000 token (consume_all [] new_store)).0
    ≡ 0
unfolding consume forget_expired pop_each expired_jtis consume_all
single_use_example =
    single_use [] ((6000, stolen) ∷ (7000, token) ∷ []) 5000 token refl
      (omega arith, (omega arith, record {}))
