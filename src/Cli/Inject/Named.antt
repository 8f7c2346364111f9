-- ===== src/Cli/Inject/Named.antt =====
-- Which variable `sanitize_env_key` of crates/lockrail-cli/src/inject.rs makes of a name.
use mathlib.Core.Path.{subst}
use lockrail.Prelude.{
  ℕ, ◌-◌, ◌≤◌, ◌<◌, ◌≡◌, ◌↔◌, ◌⊎◌, inl, inr, refl, sym, ap, ◌∙◌, true, ◌||◌, ◌&&◌, [], ◌∷◌, ◌++◌,
  leb, ltb, arith, Bool-cases,
}
use lockrail.Prelude.Text.{
  Text, codes, upper, to_ascii_uppercase, is_ascii_lower, is_ascii_upper, is_ascii_digit,
}
use lockrail.Cli.Inject.{sanitized_byte, sanitized, starts_with_digit, sanitize_env_key}

-- A small letter becomes its capital, a capital or a digit stays, the second and later bytes of a
-- character go, and `_` stands for all else.
pub data Replaced (c : ℕ) (rest : Text) : Text → Type 0 where
  small : 97 ≤ c → c ≤ 122 → Replaced c rest ((c - 32) ∷ rest)
  same : ((65 ≤ c) × (c ≤ 90)) ⊎ ((48 ≤ c) × (c ≤ 57)) → Replaced c rest (c ∷ rest)
  later : 128 ≤ c → c < 192 → Replaced c rest rest
  other :
      (97 ≤ c → 122 < c)
      → (65 ≤ c → 90 < c)
      → (48 ≤ c → 57 < c)
      → (128 ≤ c → 192 ≤ c)
      → Replaced c rest (b'_' ∷ rest)

pub data Sanitized : Text → Text → Type 0 where
  nothing : Sanitized [] []
  byte : {c : ℕ} {s t r : Text} → Sanitized s t → Replaced c t r → Sanitized (c ∷ s) r

abbrev pub DigitFirst : Text → Type 0
DigitFirst [] = ⊥
DigitFirst (c ∷ s) = (48 ≤ c) × (c ≤ 57)

-- `variable` is the sanitized name, behind `SECRET_` where that starts with a digit.
pub record Names (name variable : Text) : Type 0 where
  pub key : Text
  pub sanitized : Sanitized name key
  pub prefixed : DigitFirst key → variable ≡ codes "SECRET_" ++ key
  pub plain : (DigitFirst key → ⊥) → variable ≡ key

byte-Replaced : (c : ℕ) (rest : Text) → Replaced c rest (sanitized_byte (upper c) rest)
unfolding sanitized_byte upper
byte-Replaced c rest = elim (Bool-cases (is_ascii_lower c)) [
  | inl l ↦
      subst (λ t. Replaced c rest t)
        (let e : (c - 32) ∷ rest ≡ sanitized_byte (upper c) rest = ground arith in e)
        (small (ground arith) (ground arith))
  | inr n ↦ elim (Bool-cases (leb 128 c && ltb c 192)) [
    | inl t ↦
        subst (λ t. Replaced c rest t)
          (let e : rest ≡ sanitized_byte (upper c) rest = ground arith in e)
          (later (ground arith) (ground arith))
    | inr f ↦ elim (Bool-cases (is_ascii_upper c || is_ascii_digit c)) [
      | inl a ↦
          subst (λ t. Replaced c rest t)
            (let e : c ∷ rest ≡ sanitized_byte (upper c) rest = ground arith in e)
            (same (ground arith))
      | inr b ↦
          subst (λ t. Replaced c rest t)
            (let e : b'_' ∷ rest ≡ sanitized_byte (upper c) rest = ground arith in e)
            (other (λ h. ground arith) (λ h. ground arith) (λ h. ground arith) (λ h. ground arith))
    ]
  ]
]

name-Sanitized : (name : Text) → Sanitized name (sanitized (to_ascii_uppercase name))
unfolding sanitized to_ascii_uppercase
name-Sanitized [] = nothing
name-Sanitized (c ∷ s) = byte (name-Sanitized s) (byte-Replaced c _)

starts_with_digit_iff : (s : Text) → (starts_with_digit s ≡ true) ↔ DigitFirst s
unfolding starts_with_digit
starts_with_digit_iff [] = (λ h. cc, λ h. absurd h)
starts_with_digit_iff (c ∷ s) = (λ h. ground arith, λ h. ground arith)

pub sanitize_env_key-Names : (name : Text) → Names name (sanitize_env_key name)
unfolding sanitize_env_key
sanitize_env_key-Names name =
    let digit = starts_with_digit_iff (sanitized (to_ascii_uppercase name)) in
    record {
      key = sanitized (to_ascii_uppercase name);
      sanitized = name-Sanitized name;
      prefixed = λ d. rw (digit.1 d) refl;
      plain = λ n. elim (Bool-cases (starts_with_digit (sanitized (to_ascii_uppercase name)))) [
        | inl t ↦ absurd (n (digit.0 t))
        | inr f ↦ rw f refl
      ];
    }

Replaced-byte : (c : ℕ) (rest r : Text) → Replaced c rest r → r ≡ sanitized_byte (upper c) rest
unfolding sanitized_byte upper
Replaced-byte c rest r (small a b) = ground arith
Replaced-byte c rest r (same (inl h)) = ground arith
Replaced-byte c rest r (same (inr h)) = ground arith
Replaced-byte c rest r (later a b) = ground arith
Replaced-byte c rest r (other a b d e) = ground arith

Sanitized-name : (s t : Text) → Sanitized s t → t ≡ sanitized (to_ascii_uppercase s)
unfolding sanitized to_ascii_uppercase
Sanitized-name [] [] nothing = refl
Sanitized-name [] (_ ∷ _) h = elim h [ ]
Sanitized-name (c ∷ s) r (byte {t = t} h b) =
    Replaced-byte c t r b ∙ ap (λ t. sanitized_byte (upper c) t) (Sanitized-name s t h)

-- The variable that a name has is the one that is made of it.
pub Names-sanitize_env_key :
    (name variable : Text) → Names name variable → sanitize_env_key name ≡ variable
unfolding sanitize_env_key
Names-sanitize_env_key name variable n =
    let e = Sanitized-name name n.key n.sanitized in
    elim (Bool-cases (starts_with_digit n.key)) [
      | inl t ↦ rw⁻¹ e (rw t (sym (n.prefixed ((starts_with_digit_iff n.key).0 t))))
      | inr f ↦
          rw⁻¹ e (rw f (sym (n.plain (λ d. absurd (cc (f, (starts_with_digit_iff n.key).1 d))))))
    ]
