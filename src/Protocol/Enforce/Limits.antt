-- ===== src/Protocol/Enforce/Limits.antt =====
-- The limits on a request's body: its size and its media type.
use lockrail.Prelude.{ℕ, ◌≤◌, ◌≡◌, ◌↔◌, some, ◌∷◌, ◌++◌, arith, ok, Option-cases, inl, inr}
use lockrail.Prelude.Text.{Text}
use lockrail.Prelude.Text.Split.{Lacks, split-append, split-Lacks}
use lockrail.Protocol.Claims.{CapabilityClaims}
use lockrail.Protocol.Enforce.{media_type, enforce_content_type, enforce_body_size}

-- A body is let through exactly if it is within the limit, where the claims set one.
pub enforce_body_size_iff :
    (claims : CapabilityClaims) (size : ℕ)
    → (enforce_body_size claims size ≡ ok tt)
      ↔ ((limit : ℕ) → claims.max_body_size ≡ some limit → size ≤ limit)
unfolding enforce_body_size
enforce_body_size_iff claims size = (
  λ h limit e. ground arith,
  λ h. elim (Option-cases claims.max_body_size) [
    | inl e ↦ ground arith
    | inr (limit, e) ↦ ground (arith, h limit e)
  ],
)

media_type-parameters :
    (name parameters : Text)
    → Lacks b';' name
    → media_type (name ++ (b';' ∷ parameters)) ≡ media_type name
unfolding media_type
media_type-parameters name parameters h =
    rw (split-append name parameters b';' h, split-Lacks name b';' h)

-- Parameters behind the first semicolon do not change what is decided of a media type.
pub enforce_content_type-parameters :
    (claims : CapabilityClaims) (name parameters : Text)
    → Lacks b';' name
    → enforce_content_type claims (some (name ++ (b';' ∷ parameters)))
      ≡ enforce_content_type claims (some name)
unfolding enforce_content_type
enforce_content_type-parameters claims name parameters h =
    rw (media_type-parameters name parameters h)
