-- ===== src/Prelude/Text/Trim.antt =====
-- `str::trim`: Unicode white space at both ends, in UTF-8.
use Prim.Native.Nat.{ℕ}
use mathlib.Core.Bool.{Bool, true, false, ◌&&◌, ◌||◌}
use mathlib.Core.List.{[], ◌∷◌}
use lockrail.Prelude.Tests.{leb, ◌==◌, if◌then◌else◌}
use lockrail.Prelude.Text.{Text}

-- White space of one, two and three bytes: U+0009 to U+000D and U+0020; U+0085 and U+00A0;
-- U+1680, U+2000 to U+200A, U+2028, U+2029, U+202F, U+205F and U+3000.
abbrev pub one_byte : ℕ → Bool
one_byte c = leb 9 c && leb c 13 || c == 32

abbrev pub two_bytes : ℕ → ℕ → Bool
two_bytes c d = c == 0xc2 && (d == 0x85 || d == 0xa0)

abbrev pub three_bytes : ℕ → ℕ → ℕ → Bool
three_bytes c d e =
    c == 0xe1 && (d == 0x9a && e == 0x80)
    || c == 0xe2
      && (d == 0x80 && (leb 0x80 e && leb e 0x8a || e == 0xa8 || e == 0xa9 || e == 0xaf)
          || d == 0x81 && e == 0x9f)
    || c == 0xe3 && (d == 0x80 && e == 0x80)

-- `char::is_whitespace` of the first character.
unfoldable pub starts_white : Text → Bool
starts_white [] = false
starts_white (b ∷ []) = one_byte b
starts_white (b ∷ d ∷ []) = one_byte b || two_bytes b d
starts_white (b ∷ d ∷ e ∷ s) = one_byte b || two_bytes b d || three_bytes b d e

-- `s.chars().any(char::is_whitespace)`
unfoldable pub has_white : Text → Bool
unfolding starts_white
has_white [] = false
has_white (b ∷ s) = starts_white (b ∷ s) || has_white s

unfoldable pub trim_start : Text → Text
trim_start [] = []
trim_start (c ∷ []) = if one_byte c then [] else c ∷ []
trim_start (c ∷ d ∷ []) = elim (one_byte c) [
  | true ↦ trim_start (d ∷ [])
  | false ↦ if two_bytes c d then [] else c ∷ d ∷ []
]
trim_start (c ∷ d ∷ e ∷ s) = elim (one_byte c) [
  | true ↦ trim_start (d ∷ e ∷ s)
  | false ↦ elim (two_bytes c d) [
    | true ↦ trim_start (e ∷ s)
    | false ↦ elim (three_bytes c d e) [ true ↦ trim_start s | false ↦ c ∷ d ∷ e ∷ s ]
  ]
]

-- A text of white space alone.
unfoldable pub is_blank : Text → Bool
unfolding trim_start
is_blank s = elim (trim_start s) [ [] ↦ true | c ∷ r ↦ false ]

unfoldable pub trim_end : Text → Text
unfolding is_blank
trim_end [] = []
trim_end (c ∷ s) = let rest = trim_end s in if is_blank (c ∷ s) then [] else c ∷ rest

unfoldable pub trim : Text → Text
unfolding trim_start trim_end
trim s = trim_end (trim_start s)
