-- ===== src/Worker/ThirdParty.antt =====
-- Sites of crates/worker/src/third_party.rs: the host of a URL and whether two hosts belong to
-- different sites.
pub mod Loads
pub mod Iframes
use browser_hive_rs.Base.{
  Bool, ◌||◌, not, Option, none, some, unwrap_or, if◌then◌else◌, [], ◌∷◌, any,
}
use browser_hive_rs.Base.Text.{Text, codes, text_eq}
use browser_hive_rs.Base.Strings.{starts_with, to_ascii_lowercase}
use browser_hive_rs.Common.Url.{Url, UrlLibrary}

abbrev web_host : Url → Option Text
web_host u =
    if any (text_eq u.scheme) (codes "http" ∷ codes "https" ∷ codes "ws" ∷ codes "wss" ∷ [])
    then lower u.host
    else none
  where
    lower : Option Text → Option Text
    lower none = none
    lower (some h) = some (to_ascii_lowercase h)

unfoldable pub host_of : UrlLibrary → Text → Option Text
host_of lib url = elim (lib.parse_url url) [ none ↦ none | some u ↦ web_host u ]

unfoldable pub registrable_domain : UrlLibrary → Text → Text
registrable_domain lib host =
    if starts_with host (codes "[") || lib.is_ip_addr host
    then host
    else unwrap_or (lib.domain_str host) host

unfoldable pub is_cross_site : UrlLibrary → Text → Text → Bool
unfolding registrable_domain
is_cross_site lib page other =
    not (text_eq (registrable_domain lib page) (registrable_domain lib other))
