-- ===== src/Common/BlockedTypes.antt =====
-- `BlockedResourceTypesMiddleware` of crates/common/src/browser_middleware.rs: the resource types
-- that a deployment blocks. The warnings, and the interceptor in the tab, are left out.
pub mod Exact
use browser_hive_rs.Base.{
  ℕ, Bool, true, false, not, List, [], ◌∷◌, ◌++◌, Option, none, some, ◌==◌, if◌then◌else◌, any,
  find, is_empty, unwrap_or,
}
use browser_hive_rs.Base.Text.{Text, codes, text_eq}
use browser_hive_rs.Base.Strings.{trim, to_ascii_lowercase, split}

pub data TypeSupport : Type 0 where
  safe risky unsupported : TypeSupport

-- `Network.ResourceType`
pub data ResourceType : Type 0 where
  document stylesheet image media font script text_track xhr fetch prefetch event_source :
      ResourceType
  web_socket manifest signed_exchange ping csp_violation_report preflight fed_cm other :
      ResourceType

abbrev pub Entry : Type 0
Entry = Text × ResourceType × TypeSupport

abbrev pub resource_types : List Entry
resource_types =
    (codes "document", ResourceType.document, TypeSupport.risky)
    ∷ (codes "stylesheet", ResourceType.stylesheet, TypeSupport.risky)
    ∷ (codes "image", ResourceType.image, TypeSupport.risky)
    ∷ (codes "media", ResourceType.media, TypeSupport.safe)
    ∷ (codes "font", ResourceType.font, TypeSupport.safe)
    ∷ (codes "script", ResourceType.script, TypeSupport.risky)
    ∷ (codes "texttrack", ResourceType.text_track, TypeSupport.unsupported)
    ∷ (codes "xhr", ResourceType.xhr, TypeSupport.risky)
    ∷ (codes "fetch", ResourceType.fetch, TypeSupport.risky)
    ∷ (codes "prefetch", ResourceType.prefetch, TypeSupport.unsupported)
    ∷ (codes "eventsource", ResourceType.event_source, TypeSupport.risky)
    ∷ (codes "websocket", ResourceType.web_socket, TypeSupport.unsupported)
    ∷ (codes "manifest", ResourceType.manifest, TypeSupport.unsupported)
    ∷ (codes "signedexchange", ResourceType.signed_exchange, TypeSupport.unsupported)
    ∷ (codes "ping", ResourceType.ping, TypeSupport.risky)
    ∷ (codes "cspviolationreport", ResourceType.csp_violation_report, TypeSupport.safe)
    ∷ (codes "preflight", ResourceType.preflight, TypeSupport.unsupported)
    ∷ (codes "fedcm", ResourceType.fed_cm, TypeSupport.unsupported)
    ∷ (codes "other", ResourceType.other, TypeSupport.risky)
    ∷ []

pub record BlockedResourceType : Type 0 where
  pub resource_type : ResourceType
  pub label : Text

abbrev pub is_listed : Text → List BlockedResourceType → Bool
is_listed label types = any (λ t. text_eq t.label label) types

abbrev pub push : Text → ResourceType → List BlockedResourceType → List BlockedResourceType
push label resource_type types =
    if is_listed label types
    then types
    else types ++ (record { resource_type = resource_type; label = label } ∷ [])

-- What the table says of a name.
abbrev pub add_entry : Option Entry → List BlockedResourceType → List BlockedResourceType
add_entry none types = types
add_entry (some (label, resource_type, TypeSupport.unsupported)) types = types
add_entry (some (label, resource_type, TypeSupport.risky)) types = push label resource_type types
add_entry (some (label, resource_type, TypeSupport.safe)) types = push label resource_type types

unfoldable pub entry_named : Text → Option Entry
entry_named name = find (λ e. text_eq e.0 name) resource_types

unfoldable pub add_name : Text → List BlockedResourceType → List BlockedResourceType
unfolding trim to_ascii_lowercase entry_named
add_name name types =
    let trimmed = trim name in
    if is_empty trimmed then types else add_entry (entry_named (to_ascii_lowercase trimmed)) types

abbrev pub add_names : List Text → List BlockedResourceType → List BlockedResourceType
add_names [] types = types
add_names (name ∷ names) types = add_names names (add_name name types)

unfoldable pub new : List Text → List BlockedResourceType
unfolding add_name
new names = add_names names []

-- `from_env` on the value of WORKER_BLOCKED_RESOURCE_TYPES.
unfoldable pub from_env : Option Text → List BlockedResourceType
unfolding new split
from_env raw = new (split (λ c. c == b',') (unwrap_or raw []))
