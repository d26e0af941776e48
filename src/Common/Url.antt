-- ===== src/Common/Url.antt =====
-- The two libraries that take URLs apart: the `url` crate, and `psl`, the public suffix list. They
-- are parameters of the definitions that use them, as is `IpAddr::from_str` of the standard library.
use browser_hive_rs.Base.{Bool, Option}
use browser_hive_rs.Base.Text.{Text}

-- A parsed URL: `scheme()` and `host_str()`.
pub record Url : Type 0 where
  pub scheme : Text
  pub host : Option Text

-- `Url::parse(s).ok()`, `s.parse::<IpAddr>().is_ok()` and `psl::domain_str`.
pub record UrlLibrary : Type 0 where
  pub parse_url : Text → Option Url
  pub is_ip_addr : Text → Bool
  pub domain_str : Text → Option Text
