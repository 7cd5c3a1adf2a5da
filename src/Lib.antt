-- ===== src/Lib.antt =====
-- pushd, a publish/subscribe and chat server in Go: a model of its engine, and what is proved of it.
--
-- The program. A client connects over TCP and sends frames; each frame names a command, which the
-- engine runs behind two checks, and answers. A message that is published goes to the members of
-- its room that are connected here, to every peer server, and to a queue of the storage. Peers
-- send frames of their own. Rooms, users, tokens and mail are documents of MongoDB.
--
-- The files, and the code they are about.
--   Config            config/pushd.go, mongo.go, redis.go: LoadConfig, GetS2sAddr
--   Wire              engine/cmd_interface.go NewCmdline; engine/s2s_server.go NewServerCmdline.
--                     Wire/Words, Frames and Accepts hold what the parsers accept
--   Names, Command    the constants of engine/cmd_interface.go and engine/s2s_proxy.go, and the
--                     text of each command
--   External          what is not in the repository: the mgo driver, golib's LRU cache and set, the
--                     concurrent map, encoding/json, the clock, random texts. Each is a parameter.
--                     External/Laws states what the proofs use of the containers, External/Views
--                     what they use of the two collections that say who is in a room
--   World             the state of one process, and actions on it that may panic
--   Registry          engine/pubsub.go UuidClientMap
--   Members           engine/offpush.go ChannelToUserIds: the cached members of a room.
--                     Members/Cache, Updates: its well-formedness and its operations
--   Pubsub            engine/pubsub.go; Pubsub/Delivery and Effects say who gets a message
--   Offpush           engine/offpush.go: the senders of notifications and CheckAndPush.
--                     Offpush/Pool is ObtainOneOffSender; Offpush/RoundRobin, Filling, Recipients
--   Router, S2s       engine/router.go (its tables), engine/s2s_server.go; S2s/Relay
--   Peer              engine/router.go Peer, engine/s2s_proxy.go WaitMsg, engine/etcClient.go
--                     watchPeers; Peer/Attempts, Forwarding, and Peer/Cluster for a message from
--                     one server to another
--   Polling           engine/server_http_polling.go, engine/history.go, engine/storage/cache.go;
--                     Polling/Silence
--   Client            engine/client.go; Client/Keeps and Lifecycle
--   Auth              engine/auth.go, engine/acl.go; Auth/Tokens
--   Im                engine/im.go; Im/RoomId, Agreement
--   Process           the cases of Process in engine/cmd_interface.go, one module for each group
--   Server            engine/server_tcp.go
--   Storage           engine/storage/storage.go Serv; Storage/Order, Progress. Storage/Binding is its
--                     second queue, with engine/storage/storage_mgo.go
--   Sessions          db/mongo.go, db/redis.go; Sessions/Login
--   Daemon            daemon/pushd/main.go main; Daemon/Order
--   Benchmark         daemon/benchmark/main.go; Benchmark/Batches
--   Stats             engine/server_tcp_stats.go handleHttpQuery, launchHttpServer; Stats/Pages
--   Cli               cmd/pushd-cli/cli.go run, processInput; Cli/Lines
--   Text, Prelude     byte strings with what the code uses of package strings and strconv, and the
--                     library names, tests and lists that all files share
--   Engine            the server process as a whole. Engine/Events: a state, what may happen to it
--                     and the states that are reached; Grown, Kept: what every handler keeps, and
--                     how actions keep it; Actions, Shared, Publishing, Relaying, Clients, Rooms,
--                     Messages, Frames, Users, Notices, Identity, Commands, Background: that each
--                     does; Cases, Running, Growth, Endings, Publication: what follows
--   Tests             a process in memory, and the theorems at concrete inputs
--
-- How the code is modelled. A handler is a function from the state of the process to its result
-- and the state after it; a panic keeps what was written before it. Clients, collections of
-- members and sets of peers are addresses, so that code which shares an object shares it here.
-- What a handler starts with `go` is recorded: a write to a client in `sent`, a set-up in
-- `spawned`. The clock and the random texts are functions of a counter of readings, which every
-- reading raises, so that no value is assumed. Reads of the database are functions of its state,
-- writes are a data type with one constructor for each modifier that the engine sends, and what
-- the driver answers is a parameter, errors included. Whether the own address of a server resolves
-- is a parameter too.
--
-- Texts are lists of bytes, and a byte is a number. The 32-bit length fields of a frame are read
-- as signed words, with their wrap-around written out; numbers of 64 bits are parsed with their
-- bounds. All recursion is on lists, and no fuel is used but the length of the text that is cut,
-- the number that is printed, and the number of connections that are divided into batches: a text
-- has fewer parts than bytes and one more, a number fewer digits than its value and one more, and
-- a batch takes at least one connection.
--
-- The loop of the storage is different: it is a step relation, whose steps are the operations on
-- its channels and on the driver, in any order. Its channels have the capacities of the
-- configuration as parameters, and a step that would block is no step. The counter of the pool of
-- senders is a step relation too, whose steps are the load, the exchange and the retry of any
-- number of goroutines. What the network answers to a peer is a function of how often it was asked.
--
-- A running process is a sequence of events, in any order: a client connects, sends a message or is
-- closed, the goroutine of a set-up runs, a peer sends a frame, the list of peers changes, a poll
-- comes, the offline push looks for users, the loop of the proxy and the loop of the storage take
-- what waits for them, and others change the database. A new client may get any address that no
-- waiting goroutine holds.
--
-- Not modelled: the interleaving inside of handlers, with locks (a handler is one step), the
-- sockets, timeouts and heartbeats, the JPush service and the directory of servers behind the calls
-- of their libraries, the counters of the metrics library, the line editor of the command line
-- client, and the flags and the shutdown of the server. Where the load generator starts a batch as a
-- goroutine, the batch is one step.
pub mod Prelude
pub mod Text
pub mod Wire
pub mod Config
pub mod External
pub mod World
pub mod Names
pub mod Registry
pub mod Members
pub mod Pubsub
pub mod Router
pub mod S2s
pub mod Peer
pub mod Client
pub mod Auth
pub mod Im
pub mod Command
pub mod Process
pub mod Server
pub mod Storage
pub mod Polling
pub mod Offpush
pub mod Tests
pub mod Sessions
pub mod Benchmark
pub mod Daemon
pub mod Cli
pub mod Stats
pub mod Engine
