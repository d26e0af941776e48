-- ===== src/Common/Config/Coordinator.antt =====
-- `CoordinatorConfig` of crates/common/src/config.rs. `env` stands for `std::env::var(name).ok()`,
-- and `parse_duration` for the function of the crate `humantime`, in nanoseconds.
use browser_hive_rs.Base.{
  ℕ, ◌*◌, ◌^◌, ◌≡◌, refl, Bool, true, List, [], ◌∷◌, ◌++◌, Option, none, some,
}
use browser_hive_rs.Base.Text.{Text, codes}
use browser_hive_rs.Base.Strings.Decimal.{parse}
use browser_hive_rs.Common.Config.Diagnostics.{parse_bool}

pub record CoordinatorConfig : Type 0 where
  pub grpc_port : ℕ
  pub worker_cache_ttl : ℕ
  pub enable_metrics : Bool
  pub metrics_port : ℕ

abbrev pub default : CoordinatorConfig
default = record {
  grpc_port = 50051;
  worker_cache_ttl = 5 * 1000000000;
  enable_metrics = true;
  metrics_port = 9090;
}

abbrev pub warning : Text → Text → Text
warning name raw = name ++ (codes "='" ++ (raw ++ codes "' could not be parsed, using the default"))

-- The value of a variable, with the warnings that reading it adds.
unfoldable pub parse_var {ℓ} :
    {A : Type ℓ} → (Text → Option Text) → (Text → Option A) → Text → A → A × List Text
parse_var env read name d = elim (env name) [
  | none ↦ (d, [])
  | some raw ↦ elim (read raw) [ some v ↦ (v, []) | none ↦ (d, warning name raw ∷ []) ]
]

abbrev parse_u16 : Text → Option ℕ
parse_u16 = parse (2 ^ 16)

module _ (parse_duration : Text → Option ℕ) (env : Text → Option Text) where
  abbrev grpc_port_of : ℕ × List Text
  grpc_port_of = parse_var env parse_u16 (codes "COORDINATOR_GRPC_PORT") default.grpc_port

  abbrev enable_metrics_of : Bool × List Text
  enable_metrics_of =
      parse_var env parse_bool (codes "COORDINATOR_ENABLE_METRICS") default.enable_metrics

  abbrev metrics_port_of : ℕ × List Text
  metrics_port_of = parse_var env parse_u16 (codes "COORDINATOR_METRICS_PORT") default.metrics_port

  abbrev worker_cache_ttl_of : ℕ × List Text
  worker_cache_ttl_of =
      parse_var env parse_duration (codes "COORDINATOR_WORKER_CACHE_TTL") default.worker_cache_ttl

  -- The configuration, and the warnings in the order in which the variables are read.
  unfoldable pub from_env : CoordinatorConfig × List Text
  unfolding parse_var parse
  from_env = (
    record {
      grpc_port = grpc_port_of.0;
      worker_cache_ttl = worker_cache_ttl_of.0;
      enable_metrics = enable_metrics_of.0;
      metrics_port = metrics_port_of.0;
    },
    grpc_port_of.1 ++ (enable_metrics_of.1 ++ (metrics_port_of.1 ++ worker_cache_ttl_of.1)),
  )

parse_var-silent :
    {A : Type 0} (env : Text → Option Text) (read : Text → Option A) (name : Text) (d : A)
    → env name ≡ none
    → parse_var env read name d ≡ (d, [])
unfolding parse_var
parse_var-silent env read name d h = rw (parse_var, h) refl

-- Without variables it is the default configuration, and nothing is warned of.
pub from_env_unset :
    (parse_duration : Text → Option ℕ) (env : Text → Option Text)
    → ((name : Text) → env name ≡ none)
    → from_env parse_duration env ≡ (default, [])
unfolding from_env
from_env_unset parse_duration env h =
    rw
      (
        from_env,
        parse_var-silent env parse_u16 (codes "COORDINATOR_GRPC_PORT") default.grpc_port (h _),
        parse_var-silent env parse_bool (codes "COORDINATOR_ENABLE_METRICS") default.enable_metrics
            (h _),
        parse_var-silent env parse_u16 (codes "COORDINATOR_METRICS_PORT") default.metrics_port
            (h _),
        parse_var-silent env parse_duration (codes "COORDINATOR_WORKER_CACHE_TTL")
            default.worker_cache_ttl (h _),
      )
      refl
