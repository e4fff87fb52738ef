-- ===== src/Http.antt =====
-- The answers of the HTTP handlers.
use defi_demo.Base.{ℕ, String}

-- The status and the body of an answer.
pub data Reply (A : Type 0) : Type 0 where
  ok : A → Reply A
  error : ℕ → String → Reply A
