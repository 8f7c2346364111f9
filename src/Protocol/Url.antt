-- ===== src/Protocol/Url.antt =====
-- The crate `url` as the program sees it: a parser, and what its accessors return. Neither is
-- defined here; both are parameters of what uses them.
use lockrail.Prelude.{ℕ, Option}
use lockrail.Prelude.Text.{Text}
use lockrail.Protocol.Net.Addr.{Host}

pub record Url : Type 0 where
  pub as_str : Text
  pub scheme : Text
  pub username : Text
  pub password : Option Text
  pub host : Option Host
  pub host_str : Option Text
  pub port_or_known_default : Option ℕ
  pub path : Text
  pub query : Option Text

-- `Url::parse`, and `Host`'s `to_string`, which only error messages hold.
pub record UrlCrate : Type 0 where
  pub parse : Text → Option Url
  pub display_host : Host → Text
