-- ===== src/Protocol/Presets/Preset.antt =====
-- `InjectionMethod` and `ServicePreset` of crates/lockrail-protocol/src/presets.rs.
use lockrail.Prelude.{ℕ, List}
use lockrail.Prelude.Text.{Text}
use lockrail.Protocol.QueryPolicy.{QueryPolicy}

pub data InjectionMethod : Type 0 where
  header query : InjectionMethod

-- The minutes are of type i64, in the form of `Prelude.Int64`.
pub record ServicePreset : Type 0 where
  pub id : Text
  pub display : Text
  pub detection_hints : List Text
  pub hosts : List Text
  pub schemes : List Text
  pub ports : List ℕ
  pub methods : List Text
  pub paths : List Text
  pub query_policy : QueryPolicy
  pub injection_method : InjectionMethod
  pub inject_header : Text
  pub inject_prefix : Text
  pub recommended_ttl_minutes : ℕ
  pub recommended_max_uses : ℕ
  pub notes : Text
