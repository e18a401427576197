-- ===== src/Guards.antt =====
-- apps/cloud-api/src/shared/internal-auth.guard.ts and ssh/ssh-gateway.guard.ts: which requests
-- pass. `expected` is the configured internal token; an empty one switches the check off.
use microsanbox_cloud.Prelude.{
  ◌≡◌, refl, ◌↔◌, ◌⊎◌, inl, inr, ap, Bool, true, List, [], ◌∷◌, ◌++◌, Option, none, some, Text,
  codes, option_text_eq, text_eq_refl, eq_of_text_eq,
}

-- The authorization header of a request: absent, a text, or several texts.
pub data AuthHeader : Type 0 where
  absent : AuthHeader
  single : Text → AuthHeader
  several : List Text → AuthHeader

-- `Array.isArray(authHeader) ? authHeader[0] : authHeader`
unfoldable pub header_token : AuthHeader → Option Text
header_token absent = none
header_token (single t) = some t
header_token (several []) = none
header_token (several (t ∷ ts)) = some t

-- False where the code throws an UnauthorizedException.
unfoldable pub can_activate : Text → AuthHeader → Bool
unfolding header_token
can_activate [] header = true
can_activate (c ∷ expected) header =
    option_text_eq (header_token header) (some (codes "Bearer " ++ c ∷ expected))

option_text_eq_iff :
    (o : Option Text) (t : Text) → (option_text_eq o (some t) ≡ true) ↔ (o ≡ some t)
option_text_eq_iff none t = (λ h. cc, λ h. cc)
option_text_eq_iff (some s) t =
    (λ h. ap some (eq_of_text_eq s t h), λ h. let same : s ≡ t = cc in rw same (text_eq_refl t))

-- A request passes exactly if no internal token is configured, or the first authorization header is
-- `Bearer ` and that token.
pub can_activate_iff :
    (expected : Text) (header : AuthHeader)
    → (can_activate expected header ≡ true)
      ↔ ((expected ≡ []) ⊎ (header_token header ≡ some (codes "Bearer " ++ expected)))
unfolding can_activate
can_activate_iff [] header = (λ h. inl refl, λ h. refl)
can_activate_iff (c ∷ expected) header =
    let iff = option_text_eq_iff (header_token header) (codes "Bearer " ++ c ∷ expected) in
    (λ h. inr (iff.0 h), passes)
  where
    passes :
        ((c ∷ expected ≡ []) ⊎ (header_token header ≡ some (codes "Bearer " ++ c ∷ expected)))
        → can_activate (c ∷ expected) header ≡ true
    passes (inl e) = cc
    passes (inr e) =
        (option_text_eq_iff (header_token header) (codes "Bearer " ++ c ∷ expected)).1 e
