-- ===== src/Relay/Request.antt =====
-- Requests to the relay and its answers: `RelayRequest`, `RelayResponse`, `body_bytes` and
-- `content_type` of crates/lockrail-relay/src/lib.rs.
use lockrail.Prelude.{ℕ, Option, none, some, [], ◌∷◌, if◌then◌else◌, Result, ok, ok_or}
use lockrail.Prelude.Map.{Map}
use lockrail.Prelude.Text.{Text, codes, eq_ignore_ascii_case}
use lockrail.Protocol.Json.{Json}
use lockrail.Protocol.Proof.{AccessProof}
use lockrail.Protocol.Receipt.{Receipt}
use lockrail.Relay.Refusal.{RelayError, json}

pub record RelayRequest : Type 0 where
  pub capability : Text
  pub method : Text
  pub upstream : Text
  pub headers : Map Text
  pub json_body : Option Json
  pub data_body : Option Text
  pub proof : Option AccessProof

pub record RelayResponse : Type 0 where
  pub status_code : ℕ
  pub headers : Map Text
  pub body : Text
  pub lockrail_receipt : Receipt

-- `to_vec` is serde_json's.
unfoldable pub body_bytes : (to_vec : Json → Option Text) → RelayRequest → Result RelayError Text
body_bytes to_vec req = elim req.json_body [
  | some j ↦ ok_or (to_vec j) json
  | none ↦ elim req.data_body [ some text ↦ ok text | none ↦ ok [] ]
]

-- The first header of this name; without one, what a body in JSON is.
header_type : Map Text → Option Text
header_type [] = none
header_type ((key, value) ∷ m) =
    let rest = header_type m in
    if eq_ignore_ascii_case key (codes "content-type") then some value else rest

unfoldable pub content_type : RelayRequest → Option Text
unfolding header_type
content_type req = elim (header_type req.headers) [
  | some value ↦ some value
  | none ↦ elim req.json_body [ some j ↦ some (codes "application/json") | none ↦ none ]
]
