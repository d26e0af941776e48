-- ===== src/Lib.antt =====
-- Browser Hive: a coordinator routes scraping requests to worker pods, and each worker keeps a pool
-- of browser contexts in which the requests run.
--
-- Parts and files, with paths from the repository's root:
--   Common.Lifecycle, Common.Config   crates/common/src/config.rs: when a context is used up, the
--     scope's configuration and its validation, the session modes. Common.Config.Diagnostics: when
--     a request's diagnostics are captured and logged. Common.Config.Coordinator: the configuration
--     of the coordinator.
--   Common.Url   what the worker uses of the crates `url` and `psl`.
--   Common.Challenge   crates/common/src/challenge.rs: the wait for a challenge to pass, and for the
--     body of a JSON document.
--   Common.Proxy   crates/common/src/proxy.rs: the server and the credentials of a proxy.
--   Common.BlockedTypes   crates/common/src/browser_middleware.rs: the blocked resource types.
--   Common.Metadata   crates/common/src/types.rs: the state of one context, with the origins that
--     blocked it and until when.
--   Common.Endpoint   crates/common/src/types.rs: what the coordinator knows of a pod.
--   Worker.Context, Worker.Pool   crates/worker/src/browser_pool.rs: the pool. Pool.Select holds the
--     claims, Pool.Acquire the acquisitions of the session modes and the removals, Pool.Monitor the
--     ticks of the lifecycle monitor and the statistics, Pool.Guard the busy guard of
--     crates/worker/src/service.rs, Pool.Steps every interleaving of the critical sections.
--   Worker.Acquisition, Worker.Handler   crates/worker/src/service.rs: `scrape_page` of the worker,
--     from the choice of a context, with the recovery from a dead browser, to the counters.
--     Worker.Attempt: one attempt, `scrape_page_internal`, as a sequence of steps with early
--     returns. Worker.Outcome: the error codes and what a finished attempt means.
--   Worker.PageLoad   crates/worker/src/page_load.rs: the loads of a page and the verdict on them.
--   Worker.PageActivity   crates/worker/src/page_activity.rs: what a page did while it loaded.
--   Worker.ThirdParty   crates/worker/src/third_party.rs: hosts and sites, the counters of loads and
--     iframes.
--   Worker.LaunchArgs   crates/worker/src/launch_args.rs: the merge of feature switches.
--   Worker.WaitBudget, Worker.WaitStrategy   crates/common/src/wait_strategy.rs: the timeouts of a
--     wait, and the strategies `timeout` and `network_idle`.
--   Worker.Documents, Worker.WaitPhase   crates/worker/src/service.rs: the main documents that the
--     listener of an attempt collects, and the blocking task of its wait. WaitPhase.Registry: the
--     choice of the strategy.
--   Worker.Shutdown   crates/worker/src/shutdown.rs: the drain.
--   Worker.Diagnostics   crates/worker/src/diagnostics.rs: the buffer, the rate limiter, the session.
--   Coordinator.InFlight   crates/coordinator/src/in_flight.rs: the requests dispatched to each pod.
--   Coordinator.Routing, Coordinator.Route, Coordinator.Retry, Coordinator.Respond
--     crates/coordinator/src/service.rs: the choice of a worker, and `scrape_page` in three parts,
--     up to its first attempt, the retry loop, and the response with the session that it opens.
--   Coordinator.Discovery   crates/coordinator/src/worker_discovery.rs: a round over the pods and the
--     maps that it replaces. Discovery.Local: crates/coordinator/src/local_worker_discovery.rs.
--   Coordinator.Metrics   crates/coordinator/src/metrics.rs: the counters and their labels.
--   Coordinator.Session   crates/common/src/session.rs: session ids and the session map. Session.Kept:
--     what becomes of a session in a sequence of operations on the map.
--   Proto.Wait   crates/proto/src/wait.rs: the wait parameters of a request.
--   Base   lists, texts with their searches and decimals, maps and sorting that the others share.
--
-- How they interact. The coordinator's `scrape_page` calls the worker's; that one takes a context of
-- the pool and hands it to an attempt, whose steps change the pool by the functions of Worker.Pool.
-- The attempt ends in a verdict, which reads the tracker of the page's loads and decides what the
-- diagnostics session writes. The wait of an attempt first waits out a challenge, on the documents of
-- the listener, and the strategy gets the time that is left. Discovery fills the maps from which the
-- coordinator's `scrape_page` routes a request or tells why it cannot.
--
-- How code becomes definitions. A function that takes `&mut self` or a lock returns the new state
-- next to its result. A section of code under one lock is one function, and the work between two
-- sections, which runs in Chrome, is a parameter: `Creation` is what a creation returns, and
-- `Surroundings` is what one attempt of the coordinator reads from outside, `Script` what one of the
-- worker does, and `Outside` what a whole request of the worker does. `UrlLibrary` holds `Url::parse`,
-- `IpAddr::from_str` and `psl::domain_str`. A `HashMap` is an association list, an
-- `Arc` is the id of what it points to, an `Instant` or `Duration` is a number of nanoseconds, and
-- a text is the list of its code points. Counters wrap at 2^64. The pool's `released` logs the
-- calls of `release_context`, since Chrome's answer to them is read by nobody.
--
-- Fuel. The retry loop of `scrape_page` has no bound of its own but the attempts of its plans;
-- `attempt_loop` takes fuel, and 3 is enough, since no plan allows a fourth attempt.
-- The loops that poll a live page, the documents or the requests in flight recurse on the list of the
-- rounds that they can make, each with what the code reads in it, and have no answer where the list
-- runs out; rounds that come to the deadline of a loop are enough.
-- `show` prints a number with fuel for 20 digits, enough below 2^64, and `trim_start_text` takes as
-- much fuel as its text is long.
--
-- Not modelled: the calls into Chrome and over the network themselves, the scripts that are injected
-- into pages and those by which a page is asked, the listeners of an attempt but for its documents,
-- process start and signals, the list of pods and the statistics that come over the network (they are
-- parameters), the registration of metrics, and logging. Of a
-- response of the worker the message is modelled where a finished attempt makes it, and its execution
-- time and ray id are not, since no code of the repository decides on them.
pub mod Base
pub mod Common
pub mod Coordinator
pub mod Proto
pub mod Worker
