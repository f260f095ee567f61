-- ===== src/Lib.antt =====
-- Verification of the lottery statistics service (a Go server that keeps historical lottery draws in
-- prefix trees and answers questions about them).
--
-- The parts and how they interact:
-- - Tree (internal/lottery-tree/node.go, tree.go): the prefix tree over number groups. A node is
--   `node num count next`; `build_node` is (*LoNode).Build, `build` is (*LoTree).Build, and
--   `collect_nodes` is CollectNodes. Tree/Groups has the abstract view, the count of a group; the
--   other modules of Tree relate the code to it (Sized: the shape; Counts, Frequency: what is
--   counted; Present, Collect, Reports: what is reported).
-- - Combos (internal/lottery-tree/lottery_archive.go): GenerateCombinations and binomialCount, with
--   subsequences and the triangle of binomials in Combos/Spec.
-- - Mask: ComboMask, over the bits of a word.
-- - Analyze: AnalyzeArray and analyzeBuild of lottery_archive.go, which walk a tree along a form.
-- - Archive: NewLotteryArchive, which builds the trees and the set of winning masks from the draws,
--   and its queries: MaxNumber, RankNumbers, TopStrong, TopGroups, AnalyzeForm, HasWon, and
--   ScoreForm in Archive/Score.
-- - Generator (internal/lottery-tree/form_generator.go): Generate, which ranks the numbers of an
--   archive, moves the requested ones to the front (`regroup`), permutes the rest until the leading
--   ones have not won (`search_forms`) and records the form (`add_result`).
-- - Simulate (internal/services/simulate.go): the backtest of a form. Simulate has the helpers, from
--   the date windows to simulateDraw, and Simulate/Session the request handler on a loaded archive;
--   Service/Backtest has it with the cache.
-- - Manager (internal/services/lottery_manager.go): the date windows of the cache of archives, in
--   Manager/Order the list of its entries, on the pointers (addToFront, remove, moveToFront), and in
--   Manager/Cache the operations on the map, the list and the entries: Archive in its three locked
--   sections, build, InvalidateRange and InvalidateAll. Sound, Sections, Trim and Answers have the
--   invariant, Reach the sequences of calls, Dates the interface that the scraper uses. Manager/Callers
--   has calls that run side by side: a step relation on the shared state, the table of draws and the
--   places where the calls stand, one step for each access to shared memory.
-- - Repository (internal/repository/lottery_result_repository.go): InsertNewDraws over an interface of
--   the statements that it sends, and in Repository/Queries the other methods over a pool that takes
--   the text of a statement. Repository/Ranges and Repository/Upsert say what the server is documented
--   to do for them.
-- - Service (internal/services/lottery_service.go): the request handlers, on the manager and the
--   repository; Convert (internal/utils/convert.go) has the integer conversions they use. Load is the
--   load of an archive, Statistics, Forms, Reports and Backtest are the handlers over any repository,
--   and Service/Table is all of it on the table of draws.
-- - Scraper (internal/scraper/pais_scraper.go): the CSV file of draws, and in Scraper/Table the page
--   of prizes.
-- - Scrape (internal/services/scrape_runner.go, internal/seeder/prize_seeder.go): a run of the scraper,
--   which fetches, inserts, drops cached windows and fills in prizes.
-- - Consumer (internal/services/scrape_consumer.go): the stream of requests for runs, as the list of
--   the Redis commands.
-- - Auth (internal/middleware/auth.go): the validation of bearer tokens, and in
--   Auth/Jwks the cache of the realm's keys.
-- - Gateway (internal/server/gateway.go, internal/server/grpc.go): the handlers that a REST request
--   passes on its way to the service.
-- - Startup (internal/startup/server.go): the start of the service, and the schedule of the scraper.
-- - Config (internal/config/config.go): the configuration from the environment. Scrape/Seeder
--   (internal/seeder/lottery_seeder.go): the first load of the whole history, and in Scrape/Seeding
--   the table after it.
-- - Models (internal/models/lottery_result.go): a draw, and the float64 operations in use.
-- - Base: shared names, lists over the native numbers, chains of options and the stable sort. Tests
--   and the modules called Examples hold concrete inputs.
--
-- How state is modelled: a node that the code mutates through a pointer is returned anew, which is
-- exact as a tree has no sharing. The generator's fields are a record, passed on from step to step;
-- what may index out of range gives a `Run`, which is a value, a panic or a lack of fuel. A Go map
-- that serves as a set is the list of its members. The int, int32 and uint64 values are natural
-- numbers; negative inputs take the branch of 0 in the code modelled here. In Convert, Service,
-- Scraper and binomialCount an int is a word of 64 bits and an int32 one of 32 bits, in two's
-- complement.
--
-- Bounds and fuel: GenerateCombinations has the number of combinations as the fuel of its loop. The
-- products of binomialCount wrap at 64 bits. A call of search moves `start` or `check` by one, so
-- formType - start + len(tries) - check bounds its depth; Generate gives 2 * len(tries) + 1. The tree
-- is built to six levels. A tree for lottery number 3 is left out of the theorems: NewLoNode treats
-- that size apart, and no game has it.
--
-- A run of the scraper has 2001 rounds for its backfill: each round but the last writes at least one
-- prize, and none starts once 2000 are written.
--
-- Interfaces: the database is a record of statements, with what they are documented to do as a second
-- record (IsDatabase, IsPool); the cache that a run invalidates is Invalidator, which Manager/Dates
-- fills; the site and the prizes are PrizeSource and the arguments of `run_once`. The properties of
-- Manager/Reach and Service are about calls that follow one another; those of Manager/Callers are
-- about all interleavings, in which the list of pointers may fall apart, and the map is what they
-- speak of.
--
-- Not modelled: float64 arithmetic, logging, the patterns of regexp, HTTP, the CSV and HTML readers,
-- the JWT library, the file .env, the listening and shutdown of the servers, the pool of connections,
-- the clients and the generated messages.
pub mod Base
pub mod Analyze
pub mod Combos
pub mod Mask
pub mod Models
pub mod Archive
pub mod Generator
pub mod Tree
pub mod Simulate
pub mod Manager
pub mod Repository
pub mod Scrape
pub mod Convert
pub mod Auth
pub mod Config
pub mod Gateway
pub mod Consumer
pub mod Scraper
pub mod Service
pub mod Startup
pub mod Tests
