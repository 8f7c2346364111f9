-- ===== src/Protocol/Path.antt =====
-- `PathRule` and `wildcard_match` of crates/lockrail-protocol/src/lib.rs.
pub mod Glob
mod Loop
pub mod Decide
pub mod Rules
use lockrail.Prelude.{
  ℕ, zero, suc, ◌+◌, ◌-◌, Bool, true, false, not, ◌&&◌, Option, none, some, List, [], ◌∷◌, ◌==◌,
  if◌then◌else◌, length, drop,
}
use lockrail.Prelude.Text.{Text, codes, text_eq, is_empty, starts_with, ends_with, find, split}

pub data PathPolicy : Type 0 where
  exact prefix wildcard any : PathPolicy

pub record PathRule : Type 0 where
  pub policy : PathPolicy
  pub value : Text

-- `PathRule::exact`, `prefix`, `wildcard` and `any`
abbrev pub exact_rule : Text → PathRule
exact_rule v = record { policy = exact; value = v }

abbrev pub prefix_rule : Text → PathRule
prefix_rule v = record { policy = prefix; value = v }

abbrev pub wildcard_rule : Text → PathRule
wildcard_rule v = record { policy = wildcard; value = v }

abbrev pub any_rule : PathRule
any_rule = record { policy = any; value = codes "*" }

abbrev pub star : ℕ
star = b'*'

-- What one round of the loop over the parts does: go on with a new cursor, or return.
pub data Round : Type 0 where
  next : ℕ → Round
  done : Bool → Round

-- The body of the loop over `parts.iter().enumerate()`: `index` and `cursor` are its variables,
-- `count` is `parts.len()`. A cursor stands at the end of a part that was found, so a slice from
-- it is in range and on a character's boundary.
unfoldable pub match_part : (pattern value : Text) (count index cursor : ℕ) → Text → Round
match_part pattern value count index cursor part =
    let rest = drop cursor value in
    if is_empty part
    then next cursor
    else if index == 0 && not (starts_with pattern (codes "*"))
    then (if not (starts_with rest part) then done false else next (cursor + length part))
    else if index == count - 1 && not (ends_with pattern (codes "*"))
    then done (ends_with rest part)
    else elim (find rest part) [
      | some pos ↦ next (cursor + (pos + length part))
      | none ↦ done false
    ]

unfoldable pub match_parts : (pattern value : Text) (count index cursor : ℕ) → List Text → Bool
match_parts pattern value count index cursor [] = true
match_parts pattern value count index cursor (part ∷ parts) =
    elim (match_part pattern value count index cursor part) [
      | next c ↦ match_parts pattern value count (index + 1) c parts
      | done b ↦ b
    ]

unfoldable pub wildcard_match : Text → Text → Bool
wildcard_match pattern value =
    let parts = split pattern star in
    if text_eq pattern (codes "*")
    then true
    else if length parts == 1
    then text_eq pattern value
    else match_parts pattern value (length parts) 0 0 parts

unfoldable pub matches : PathRule → Text → Bool
matches rule path = elim rule.policy [
  | any ↦ true
  | exact ↦ text_eq path rule.value
  | prefix ↦ starts_with path rule.value
  | wildcard ↦ wildcard_match rule.value path
]
