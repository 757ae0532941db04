-- ===== src/Platform/Errors.antt =====
-- Go errors as values, with `errors.Is` and `errors.As` on a wrapped error.
use cf_edge_operator.Prelude.{ℕ, String, Bool, true, false, Option, none, some, nat_beq}

pub data Err : Type 0 where
  cloudflare_error : ℕ → Err
  deadline_exceeded canceled not_found : Err
  other : String → Err
  wrapped : String → Err → Err

pub data Result {ℓ} (A : Type ℓ) : Type ℓ where
  ok : A → Result A
  err : Err → Result A

-- `errors.As(err, &cfErr)`, and the code of the error found.
unfoldable pub status_code : Err → Option ℕ
status_code (cloudflare_error code) = some code
status_code (wrapped _ e) = status_code e
status_code _ = none

unfoldable pub is_deadline_exceeded : Err → Bool
is_deadline_exceeded deadline_exceeded = true
is_deadline_exceeded (wrapped _ e) = is_deadline_exceeded e
is_deadline_exceeded _ = false

unfoldable pub is_canceled : Err → Bool
is_canceled canceled = true
is_canceled (wrapped _ e) = is_canceled e
is_canceled _ = false

-- `apierrors.IsNotFound`, by which `client.IgnoreNotFound` decides.
unfoldable pub is_not_found : Err → Bool
is_not_found not_found = true
is_not_found (wrapped _ e) = is_not_found e
is_not_found _ = false

-- `errors.As(err, &cfErr) && cfErr.StatusCode == code`
unfoldable pub has_status_code : Err → ℕ → Bool
unfolding status_code
has_status_code e code = elim (status_code e) [ none ↦ false | some c ↦ nat_beq c code ]
