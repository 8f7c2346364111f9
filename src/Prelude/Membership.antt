-- ===== src/Prelude/Membership.antt =====
-- Tests of membership by equality.
use Prim.Native.Nat.{ℕ}
use mathlib.Core.Path.{◌≡◌, refl, subst}
use mathlib.Core.Logic.{◌↔◌}
use mathlib.Core.Bool.{Bool, true}
use mathlib.Core.List.{List}
use lockrail.Prelude.Tests.{◌==◌, ==_iff}
use lockrail.Prelude.Lists.{any, any_iff, Member}
use lockrail.Prelude.Text.{Text, text_eq, text_eq_iff}

-- A list holds what one of its elements equals.
any-eq_iff :
    {A : Type 0} (same : A → A → Bool) (x : A) (xs : List A)
    → ((a : A) → (same a x ≡ true) ↔ (a ≡ x))
    → (any (λ a. same a x) xs ≡ true) ↔ Member x xs
any-eq_iff same x xs same_iff = (
  λ h.
      let (a, m, e) = (any_iff (λ a. same a x) xs).0 h in
      subst (λ b. Member b xs) ((same_iff a).0 e) m,
  λ m. (any_iff (λ a. same a x) xs).1 (x, m, (same_iff x).1 refl),
)

pub any-text_iff : (x : Text) (xs : List Text) → (any (λ a. text_eq a x) xs ≡ true) ↔ Member x xs
any-text_iff x xs = any-eq_iff text_eq x xs (λ a. text_eq_iff a x)

pub any-number_iff : (x : ℕ) (xs : List ℕ) → (any (λ a. a == x) xs ≡ true) ↔ Member x xs
any-number_iff x xs = any-eq_iff (λ a b. a == b) x xs (λ a. ==_iff a x)
