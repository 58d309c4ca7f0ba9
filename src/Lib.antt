-- ===== src/Lib.antt =====
-- Toche, a local gateway that caches, coalesces and reduces requests to language models.
--
-- Parts and files. The paths are those of the repository.
--   Prelude     shared types, tests on numbers, lists, texts as lists of code points, hash maps as
--               keyed lists, results
--   Json        the interface of serde_json that the program uses, with the laws that it rests on
--   Shield      src/shield/coalesce.rs: `acquire` is the part of `try_acquire` under the lock,
--               `settle` the end of its wait; `complete`, `cancel` and `active_flights` keep their
--               names. A history is a list of calls, each one step, since the lock is held for the
--               whole of each. Tokio's broadcast channels are the interface in Shield/Broadcast.
--               src/shield/fingerprint.rs: `compute` and its parts
--   Cache       src/cache/breakpoint.rs and src/cache/inject.rs: where a request gets cache
--               breakpoints, and how they are put in
--   Reduce      src/reduce/rtk/toml_filter.rs and utils.rs: the filters of tool output, from the
--               definitions in TOML to the filtered text and what it reports as lost. The regex
--               crate is the interface in Reduce/Regex. src/reduce/transform.rs in Commands,
--               Contents and Transform: `reduce_body_at` and its parts, with Transform/Steps as the
--               relation that it follows, on the tool calls in Commands/Uses; src/reduce/storage.rs: `store_at`, `store_new_at`,
--               `retrieve_at` and `delete_at` on the file system that is the interface in Storage
--   Config      src/config/toche_config.rs, resolver.rs and migration.rs, and src/profiles/types.rs:
--               the configuration, its validation and resolution, and the old profiles on the way to
--               it and back; in Load `detect_and_load` and src/config/loader.rs
--   SafeCache   src/safe_cache/cache_db.rs: the tables of the cache of whole responses, with what
--               each SQL statement does to them, and which blobs count as orphans;
--               src/safe_cache/inspect.rs: which responses may be cached
--   Efficiency  src/efficiency/inject.rs and instructions.rs: instructions in the system prompt
--   Gateway     src/gateway/bounded_body.rs and src/gateway/routes.rs: the limits under which bodies
--               are read, forwarded and cached; in Rewrite the body that goes upstream, in Reuse the
--               lookup and the write of cached responses, in Handler the headers and the answer of
--               the upstream, in Messages the handlers `messages` and `responses`: `enter` leads to
--               `try_acquire`, `dispatch` takes up its result, `lead` is the leader and `finish_task`
--               the task that it spawns
--   Protocol    src/protocol: the drivers of the two protocols
--   Identity    src/identity/mod.rs: trust domains, the digest of a policy, ids in headers
--   Claude      src/integrations/mod.rs and src/integrations/claude/config.rs: connecting Claude
--               Code to the gateway and back
--   Continuity  src/continuity: in Observer the facts about a session, in Checkpoints its table of
--               checkpoints
--   Codex       src/integrations/codex/config.rs: connecting Codex to the gateway and back
--   Meter       src/meter/pricing.rs and src/meter/recorder.rs: prices and costs; in Ledger
--               src/meter/db.rs, the ledger of requests and its summary
--
-- How they interact. The gateway reads a request under a limit and takes its fingerprint. The store
-- of flights lets one leader through and has identical requests wait for its response. The leader
-- asks the cache of responses; failing that, it reduces tool results, adds the instruction, plans and
-- injects breakpoints, and forwards the request. A response that may be cached is written under the
-- storage limits; its blob is registered, as are those of reduced tool output.
--
-- Numbers and fuel. Sizes and counts are natural numbers: sums of sizes of bytes in memory, and of
-- limits that TOML holds below 2 ^ 63, fit into their machine integers; the one saturating sum is
-- written out, and so is the one difference on u64 that can wrap. Fuel has `decimal`, the number plus
-- one, which is more than it has digits, and `trim_start_matches`, the length of the text, since each
-- round takes at least one character. Prices and the cost of a request are exact where the program
-- computes with f64; the sums and averages of the ledger on f64 are parameters.
--
-- Not modelled: sockets, clocks and logging in the gateway, and its interleavings within one leader,
-- which runs as one step; the opening of the databases and their migrations; the command line and the
-- set-up of other tools. The parsing of JSON, TOML and patterns, the file system, the http crate and
-- SHA-256 are parameters, with named laws where a theorem rests on them.
pub mod Prelude
pub mod Shield
pub mod Json
pub mod Cache
pub mod Config
pub mod Reduce
pub mod SafeCache
pub mod Gateway
pub mod Meter
pub mod Efficiency
pub mod Identity
pub mod Protocol
pub mod Codex
pub mod Continuity
pub mod Claude
