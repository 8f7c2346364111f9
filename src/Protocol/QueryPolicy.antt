-- ===== src/Protocol/QueryPolicy.antt =====
-- `QueryPolicy` of crates/lockrail-protocol/src/lib.rs.
pub data QueryPolicy : Type 0 where
  any none exact prefix : QueryPolicy
