-- ===== src/Worker/WaitPhase/Registry.antt =====
-- `WaitStrategyRegistry` of crates/common/src/wait_strategy.rs, and what `scrape_page_internal` of
-- crates/worker/src/service.rs takes from it for a request.
use browser_hive_rs.Base.{ℕ, List, [], ◌∷◌, map, Option, none, some, unwrap_or, ltb, if◌then◌else◌}
use browser_hive_rs.Base.Text.{Text, codes}
use browser_hive_rs.Base.Map.{Map, lookup, insert}
use browser_hive_rs.Base.Result.{Result, ok, err}
use browser_hive_rs.Proto.Wait.{ResolvedWait}
use browser_hive_rs.Worker.WaitBudget.{validate_timeout, effective_timeout}
use browser_hive_rs.Worker.WaitPhase.{Strategy}

abbrev pub WaitStrategyRegistry : Type 0
WaitStrategyRegistry = Map Strategy

abbrev pub name : Strategy → Text
name Strategy.network_idle = codes "network_idle"
name Strategy.timeout = codes "timeout"

abbrev pub register : Strategy → WaitStrategyRegistry → WaitStrategyRegistry
register strategy registry = insert (name strategy) strategy registry

unfoldable pub new : WaitStrategyRegistry
unfolding insert
new = register Strategy.timeout (register Strategy.network_idle [])

unfoldable pub get : Text → WaitStrategyRegistry → Option Strategy
unfolding lookup
get n registry = lookup n registry

unfoldable pub default_strategy : WaitStrategyRegistry → Strategy
unfolding lookup
default_strategy registry = unwrap_or (lookup (codes "network_idle") registry) Strategy.network_idle

abbrev pub list_strategies : WaitStrategyRegistry → List Text
list_strategies registry = map (λ e. e.0) registry

-- The refusals of a request, with what their messages carry.
pub data InvalidArgument : Type 0 where
  invalid_wait_timeout : InvalidArgument
  unknown_wait_strategy : Text → List Text → InvalidArgument

-- The timeout and the strategy of a request.
abbrev pub wait_timeout_of : ResolvedWait → Result InvalidArgument ℕ
wait_timeout_of wait =
    if ltb 0 wait.timeout_ms
    then elim (validate_timeout wait.timeout_ms) [
      | ok timeout_ms ↦ ok timeout_ms
      | err e ↦ err InvalidArgument.invalid_wait_timeout
    ]
    else ok (effective_timeout wait.timeout_ms)

abbrev pub strategy_of : WaitStrategyRegistry → Text → Result InvalidArgument Strategy
strategy_of registry [] = ok (default_strategy registry)
strategy_of registry (c ∷ n) = elim (get (c ∷ n) registry) [
  | some strategy ↦ ok strategy
  | none ↦ err (InvalidArgument.unknown_wait_strategy (c ∷ n) (list_strategies registry))
]

unfoldable pub select_wait :
    WaitStrategyRegistry → ResolvedWait → Result InvalidArgument (ℕ × Strategy)
unfolding validate_timeout effective_timeout default_strategy get
select_wait registry wait = elim (wait_timeout_of wait) [
  | err e ↦ err e
  | ok timeout_ms ↦ elim (strategy_of registry wait.strategy) [
    | err e ↦ err e
    | ok strategy ↦ ok (timeout_ms, strategy)
  ]
]
