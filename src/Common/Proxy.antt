-- ===== src/Common/Proxy.antt =====
-- `ProxyConfig` of crates/common/src/proxy.rs: the server that Chrome is started with, and the
-- credentials that it is given apart from it.
pub mod Credentials
use browser_hive_rs.Base.{
  ℕ, suc, ◌+◌, ◌-◌, Bool, true, false, ◌&&◌, ◌||◌, ◌++◌, Option, none, some, is_some, leb,
  if◌then◌else◌,
}
use browser_hive_rs.Base.Text.{Text, codes}
use browser_hive_rs.Base.Result.{Result, ok, err}
use browser_hive_rs.Base.Strings.{find, take, drop}
use browser_hive_rs.Base.Strings.Decimal.{show}

pub data ProxyScheme : Type 0 where
  http https socks5 : ProxyScheme

unfoldable pub as_str : ProxyScheme → Text
as_str ProxyScheme.http = codes "http"
as_str ProxyScheme.https = codes "https"
as_str ProxyScheme.socks5 = codes "socks5"

pub record ProxyConfig : Type 0 where
  pub proxy_url : Option Text
  pub scheme : ProxyScheme
  pub address : Option Text
  pub port : Option ℕ
  pub username : Option Text
  pub password : Option Text

-- A slice of a text that ends before it begins is a panic.
pub data Panicked : Type 0 where
  panicked : Panicked

-- `&s[i..j]`.
abbrev pub slice : ℕ → ℕ → Text → Result Panicked Text
slice i j s = if leb i j then ok (take (j - i) (drop i s)) else err Panicked.panicked

unfoldable pub strip_credentials_from_url : Text → Text
unfolding find
strip_credentials_from_url url = elim (find url (codes "@")) [
  | none ↦ url
  | some at_pos ↦ elim (find url (codes "://")) [
    | none ↦ url
    | some scheme_end ↦ take (scheme_end + 3) url ++ drop (at_pos + 1) url
  ]
]

abbrev pub split_credentials : Result Panicked Text → Result Panicked (Option (Text × Text))
split_credentials (err e) = err e
split_credentials (ok creds) = elim (find creds (codes ":")) [
  | none ↦ ok none
  | some colon_pos ↦ ok (some (take colon_pos creds, drop (colon_pos + 1) creds))
]

unfoldable pub extract_credentials_from_url : Text → Result Panicked (Option (Text × Text))
unfolding find
extract_credentials_from_url url = elim (find url (codes "@")) [
  | none ↦ ok none
  | some at_pos ↦ elim (find url (codes "://")) [
    | none ↦ ok none
    | some scheme_end ↦ split_credentials (slice (scheme_end + 3) at_pos url)
  ]
]

abbrev pub from_components : ProxyScheme → Option Text → Option ℕ → Option Text
from_components scheme (some address) (some port) =
    some (as_str scheme ++ (codes "://" ++ (address ++ (codes ":" ++ show port))))
from_components scheme _ _ = none

unfoldable pub build_proxy_server : ProxyConfig → Option Text
unfolding strip_credentials_from_url as_str show
build_proxy_server c = elim c.proxy_url [
  | some url ↦ some (strip_credentials_from_url url)
  | none ↦ from_components c.scheme c.address c.port
]

abbrev pub separate : Option Text → Option Text → Option (Text × Text)
separate (some user) (some pass) = some (user, pass)
separate _ _ = none

abbrev pub or_separate :
    ProxyConfig → Result Panicked (Option (Text × Text)) → Result Panicked (Option (Text × Text))
or_separate c (err e) = err e
or_separate c (ok (some found)) = ok (some found)
or_separate c (ok none) = ok (separate c.username c.password)

abbrev pub from_url : Option Text → Result Panicked (Option (Text × Text))
from_url none = ok none
from_url (some url) = extract_credentials_from_url url

unfoldable pub get_credentials : ProxyConfig → Result Panicked (Option (Text × Text))
unfolding extract_credentials_from_url
get_credentials c = or_separate c (from_url c.proxy_url)

unfoldable pub is_proxy_enabled : ProxyConfig → Bool
is_proxy_enabled c = is_some c.proxy_url || (is_some c.address && is_some c.port)
