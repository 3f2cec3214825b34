-- ===== src/Http.antt =====
-- The HTTPException that the gateway's parts raise, as a value: the status, the code of its detail
-- and the `Retry-After` header. Messages are left out.
use ai_runtime_platform.Base.{ℕ, String, Option}

pub record HttpError : Type 0 where
  pub status_code : ℕ
  pub code : String
  pub retry_after : Option ℕ
