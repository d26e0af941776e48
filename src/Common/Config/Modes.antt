-- ===== src/Common/Config/Modes.antt =====
-- The spelling of a session mode (crates/common/src/config.rs).
use browser_hive_rs.Base.{◌≡◌, refl, ◌↔◌, some, arith}
use browser_hive_rs.Base.Text.{Text, codes, text_eq, text_eq_iff}
use browser_hive_rs.Common.Config.{SessionMode, as_str, to_lowercase, session_mode_from_str}

-- A text is read as a session mode exactly when it is the name of the mode after lowering.
pub session_mode_from_str_iff :
    (s : Text) (mode : SessionMode)
    → (session_mode_from_str s ≡ some mode) ↔ (to_lowercase s ≡ as_str mode)
unfolding session_mode_from_str as_str text_eq
session_mode_from_str_iff s SessionMode.always_new =
    (λ h. ground (arith, text_eq_iff (to_lowercase s) (codes "always_new")), λ h. rw h refl)
session_mode_from_str_iff s SessionMode.reusable = (
  λ h. ground (
    arith,
    text_eq_iff (to_lowercase s) (codes "always_new"),
    text_eq_iff (to_lowercase s) (codes "reusable"),
  ),
  λ h. rw h refl,
)
session_mode_from_str_iff s SessionMode.dedicated = (
  λ h. ground (
    arith,
    text_eq_iff (to_lowercase s) (codes "always_new"),
    text_eq_iff (to_lowercase s) (codes "reusable"),
    text_eq_iff (to_lowercase s) (codes "dedicated"),
  ),
  λ h. rw h refl,
)
