-- ===== src/Lib.antt =====
-- A model of the mining pool tos-pool (Go): its policy server, its upstream manager, its
-- proof-of-work hash with the block headers, its store, its payouts, its mining servers and helpers,
-- and the theorems about them.
--
-- The pool runs a master, which fetches block templates from TOS nodes through the upstream manager
-- (internal/rpc/upstream.go) and checks the shares of miners with the TOS hash
-- (internal/toshash/toshash.go), and slaves, which ask the policy server (internal/policy/policy.go)
-- about each connection, login and share.
--
-- Policy models internal/policy/policy.go. Policy/State has the state (Config, IPStats as IpStats,
-- PolicyServer) and the methods on one address (getStats, IsBanned, ApplyConnectionLimit, BanIP,
-- ApplyMalformedPolicy, AddScore, GetScore); Policy/Tables has ApplySharePolicy, the lists, the
-- reset and GetStats; Policy/Steps has all methods as the steps of one machine. A map is an
-- association list, a set a list of its keys; float32 is a parameter. A step is a whole method: the
-- races between a method's two locks are not modelled.
--
-- Upstream models internal/rpc/upstream.go. Upstream/Manager has the construction, the health
-- checks, selectBestUpstream, GetClient, RecordSuccess and RecordFailure; Upstream/Failover has
-- CallWithFailover and the views; Upstream/Events has histories of events. What a node answers is an
-- argument; the health checks of one round are run in the order of the list.
--
-- TosHash models internal/toshash/toshash.go. TosHash/Words has rotateLeft, rotateRight and mix on
-- 64-bit words, TosHash/Mix the four stages and Hash, TosHash/Header the block header, MinerWork,
-- Verify and ValidateShare. blake3 is a parameter; the size of the scratchpad is an argument of the
-- stages, 8192 in Hash.
--
-- Store models internal/storage/redis.go, with the records of internal/storage/types.go in
-- Store/Data. Store/Redis has the commands that are sent, and the Redis server as a parameter: its
-- state, and what the documentation of the commands promises. Store/Blocks has WriteShare,
-- WriteBlock and the moves of blocks between their sets; Store/Payments has MoveToPending,
-- RollbackPayment, UpdateMinerBalance, ConfirmPayment and the debts. A pipeline reaches the server
-- as a whole or not at all, as a flag tells; a connection lost in the middle is not modelled.
-- encoding/json, strconv.ParseUint and float64 are parameters. Store/Memory is a store that keeps
-- the promises.
--
-- Payouts models the payment of miners in internal/master/master.go. Payouts/Batch has
-- processBatchPayout over the store; Payouts/Schedule has processPayouts with its batches, and
-- LockPayouts and UnlockPayouts of internal/storage/redis.go; Payouts/Confirmation has
-- waitForTxConfirmation; Payouts/Exclusion has payouts that run at the same time; Payouts/Listing
-- has GetMiner and GetMinersWithBalance of internal/storage/redis.go, over the replies of SCAN and
-- HGETALL. What the wallet (internal/rpc/wallet_client.go) and the node answer is an argument. The
-- string commands of the Redis server are a parameter with their documented effect, and each may
-- fail. A release, which is two commands, is one step.
--
-- Config models the settings of internal/config/config.go that the others read, Validate and the
-- modes. float64 is a parameter.
--
-- Stratum models the mining server of internal/slave/stratum.go. Stratum/Session has its records and
-- the parsing of names and addresses, Stratum/Vardiff what a session's difficulty and trust are
-- computed from, Stratum/Handlers the requests of a session and Stratum/Server the lines of a
-- connection, acceptLoop, BroadcastJob and ReportInvalidShare. A session comes with the policy
-- server, what was written to its connection and the shares that the callback was given. A line is
-- handled as a whole; what the JSON decoder makes of it and the readings of the clock come with it.
--
-- Getwork models the requests and sessions of internal/slave/getwork.go, over Master. Websocket
-- models the clients of internal/slave/websocket.go and Xatum the sessions of
-- internal/slave/xatum.go, each with what was written to its connection and the shares that the
-- callback was given; a message is handled as a whole, and the JSON decoders are parameters.
--
-- Pool models what cmd/tos-pool/main.go puts between the mining server and the master: the share
-- callback and the conversion of jobs.
--
-- Master models refreshJob and pruneJobBacklog (Master/Jobs), processShare (Master/Shares) and
-- processBlocks (Master/Unlocking) of internal/master/master.go: a decoded template becomes the
-- current job, a share is judged against the current job or one of the backlog, and candidates and
-- immature blocks are moved in the store. The node's answers and the clock are arguments.
--
-- Util models internal/util/difficulty.go (Util/Difficulty) and internal/util/hex.go (Util/Hex, with
-- the decoder and encoder of encoding/hex). A big.Int is an integer. The estimates in float64 and
-- TargetToCompact are not modelled.
--
-- Prelude has the tests on numbers, lists, the integers with int32 and int64 wrap-around, and
-- association lists.
--
-- Every loop is structural recursion on a list or on the number of rounds that the source writes,
-- but for the loop over the batches of a payout, which runs on fuel: one more than the number of
-- miners is enough; only the decimal format of a number counts its digits, 20 at most, which every
-- uint64 has. Numbers that the source keeps in int32, int64 and uint64 wrap as there; times are
-- natural numbers of milliseconds, seconds or nanoseconds, as the source reads them.
--
-- Not modelled: the master's statistics and the PPLNS window, which no other code reads; the HTTP
-- and TCP servers, the JSON-RPC clients, logging, metrics, the loader of the configuration, the API
-- and the webhooks, which are I/O. The log lines of processShare and processBatchPayout that slice
-- the first bytes of an address would stop the program at a short one, but every server takes
-- addresses of 63 bytes only; those of processBlocks, which also slice what the node says, are
-- modelled.
pub mod Prelude
pub mod Policy
pub mod Upstream
pub mod TosHash
pub mod Store
pub mod Config
pub mod Payouts
pub mod Util
pub mod Master
pub mod Stratum
pub mod Getwork
pub mod Websocket
pub mod Xatum
pub mod Pool
