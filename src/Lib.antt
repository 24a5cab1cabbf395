-- ===== src/Lib.antt =====
-- A verification library for address-monitor, a service that watches addresses on several chains
-- and calls back the applications that asked for them.
--
-- The program's parts and how they interact. A listener polls a chain (internal/chain/poller.go)
-- from the block that its tracker has saved (internal/chain/tracker.go) and sends raw events to the
-- supervisor (internal/chain/supervisor.go). The supervisor parses them (internal/parser), drops
-- the contracts that the whitelist does not name (internal/chain/contract_filter.go), asks the
-- matcher who watches the address (internal/matcher: Bloom filters, hot sets in Redis, the table
-- watched_addresses), and publishes what is matched. The expander of the dispatcher
-- (internal/dispatcher/expander.go) makes of a matched event one task for each subscription, with
-- a row in webhook_logs. The sender (internal/dispatcher/sender.go) pushes a task to its callback
-- and, when that fails, publishes it to the delay queues of the broker (internal/mq/topology.go)
-- or, in the end, to the dead letters (internal/dispatcher/deadletter.go).
--
-- Which file models which part:
--   Prelude     lists and tests over native numbers, Go strings as lists of bytes, maps as
--               association lists, int32 (Prelude/Int), functions of strings (Prelude/Strings).
--   Events      the structs of internal/parser/schema.go and internal/chain/listener.go; the JSON
--               field Data is called payload.
--   AddrCodec   pkg/addrcodec/codec.go: normalize is Normalize, codec_of is Get.
--   Parser      internal/parser: EventId has GenerateEventID; Evm, Tron and Sol the parsers.
--   Store       internal/store: a table is a list of rows with the next key; an operation has the
--               name of its method in lower case.
--   Mq          internal/mq: Topology has declare_topology, the list of the calls that
--               DeclareTopology makes, and the interface Broker, which says how a broker routes;
--               Publisher the retries of Publish, Connection the waiting of reconnectLoop.
--   Chain       internal/chain: Tracker, Poller, ContractFilter, Supervisor, Writer, the batch
--               writer of supervisor.go, and TronFetcher, the filter of tron/fetcher.go. Poller/Restart has the worlds that a listener reaches by
--               polls and restarts as a step relation.
--   Dispatcher  internal/dispatcher: Task, Expander, Sender and DeadLetter have the handlers, which
--               take a delivery and the stores and return the stores and what is published.
--               Lifecycle follows one task through the sender and the queues until its end, and
--               Expander/Served an event from the expander to the callback of an app.
--   Matcher     internal/matcher: Defs has the filters and the events on them, Snapshot the
--               snapshot and the restoration. The Bloom filter is the interface Bloom.
--   DistLock    pkg/distlock/lock.go: the lock by which one instance listens to a chain.
--   Api         internal/api: Address, Apps, Auth, Contracts and Webhooks have the services of
--               service/address.go, app.go, auth.go, contract.go and webhook.go, Page normalizePage,
--               RateLimit the limiter of middleware/ratelimit.go, Access the authentication.
--   Tests       concrete inputs.
--
-- How effects are modelled. The errors of Redis, MySQL, HTTP and the broker are Boolean or optional
-- parameters of each call, read where the code looks at the error. A handler returns what it
-- publishes and how it ends (an acknowledgement or a panic) as a value. Time appears as the delays
-- of queues, in ms, and as parameters; the expiry of cached keys and the columns created_at and
-- updated_at are left out. Goroutines that the code starts and does not wait for are taken to run
-- at once. The expander counts the
-- messages that the attempts of a Publish hand over; the sender and the supervisor take a Publish
-- that returns an error for one that sends nothing, and one that returns none for one message.
--
-- Bounds and fuel. Block numbers wrap round at 2^64 where the tracker subtracts, and retry counts
-- are int32 with their overflow. The life of a task takes fuel for its attempts; five are enough,
-- since the fifth failure goes to the dead letters. The load of the filters takes fuel for its
-- pages; more than the pages that the table fills is enough. A batch of addresses takes their number
-- as fuel for its rounds of 500. The digits of a number take the number and one as fuel, and a
-- number has fewer digits. The dials of a lost connection take fuel too; one more than the failures is
-- enough. Publish makes three attempts, and the lock's times are in seconds.
--
-- What is not modelled: the handlers and the log middleware of the API, the requests of the
-- fetchers, the start of the listeners, the loop of the consumer, mail, configuration and start-up. Of
-- go-ethereum, base58, SHA-256, bcrypt, JWT, JSON, solana-go and HMAC the development takes the
-- functions as parameters.
pub mod Prelude
pub mod Events
pub mod AddrCodec
pub mod Store
pub mod Mq
pub mod Chain
pub mod Parser
pub mod Dispatcher
pub mod DistLock
pub mod Matcher
pub mod Api
mod Tests
