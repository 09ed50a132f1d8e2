-- ===== src/Lib.antt =====
-- CrossChain-Router: swaps between chains, signed by threshold nodes.
--
-- A router server registers a deposit on a source chain as a swap (database collection of swaps, status
-- TxNotStable), verifies it (TxNotSwapped, with a result of status MatchTxEmpty), builds, signs and
-- sends the payout on the destination chain (swap TxProcessed, result MatchTxNotStable), and watches
-- the payout until it is final (MatchTxStable) or has failed (MatchTxFailed). Payouts that hang are
-- replaced or swapped again. The jobs of the package worker do this over the package mongodb, the
-- bridges of the package tokens and the configuration of params and router.
--
-- Files:
-- - Prelude, Effect: names of the libraries, integers over the native numbers, and Go functions that
--   return an error and change a state, with the state beside the error.
-- - Text, with Text/Number and Text/Hex: strings as lists of bytes, ParseBig256 of common/math/big.go,
--   ToHex and FromHex of common/bytes.go. big.Int.SetString, hex.DecodeString and the functions of
--   strings stand as the documentation of Go has them.
-- - Tokens/Types, Tokens/Errors, Tokens/Bridge: tokens/types.go, tokens/errors.go and the part of
--   tokens/interface.go that the workers call. A bridge is an interface: what a chain answers is an
--   argument of every theorem. An error is the sentinel that errors.Is finds in it and its text.
-- - Tokens/Fees: the amounts of tokens/base.go over exact integers, as big.Int has them; the rate of a
--   fee is a uint64 and wraps.
-- - Mongo: mongodb/tables.go, status.go, converts.go, errors.go and the operations of api.go by key.
--   Mongo/Driver is the interface to the driver of the database, with the documented behaviour of an
--   acknowledged write and of one that fails, which may have been carried out. Mongo/Db holds the store
--   and the clock. updateResultLock makes each operation on results one step.
-- - Worker/State: the variables of the package worker as one record, World, and the interfaces to the
--   configuration (Env) and to the sets of tasks (TaskSet). What goes out to the chains is the list
--   `sent`, and the goroutines that a step starts are the list `spawned`.
-- - Worker/Update, Worker/Send: worker/common.go. Worker/SwapJob, Worker/Tasks, Worker/Reverify,
--   Worker/Swap, Worker/History: worker/swap.go. Worker/Verify: worker/verify.go. Worker/Stable: worker/stable.go and
--   worker/checkfailedswap.go. Worker/Replace, Worker/Reswap, Worker/PassBigValue: the files of these
--   names. Each handler is one function over the World or the database; a nil dereference and a failed
--   type assertion are the error runtime_panic, which ends a round of the producer or of the consumer of
--   swaps, as it ends the process, and with which a sign request is not answered.
-- - Worker/Accept: worker/accept.go and worker/acceptdb.go, a signing node that verifies a request and
--   answers it. Accept/State has the requests, the interface to bridges, configuration and signing
--   client, and the variables; Accept/Records the payouts that were agreed to; Accept/Verify
--   verifySignInfo and rebuildAndVerifyMsgHash. DoAcceptSign is a call that is recorded in `answers`, and
--   the goroutines of saveAcceptRecord in `saving`. Chain ids of a request are not nil.
-- - Tokens/NonceSetter: tokens/base/noncesetter.go. Its child Calls has the view of one account, with the
--   steps that are allowed to it, and the sequences of calls.
-- - Tokens/Abicoder and Text/Data: tokens/eth/abicoder, with the bytes of common/bytes.go and
--   common/utils.go. A slice of which the length can be made is a parameter, can_make. Slices are
--   shorter than 2^63.
-- - Router/BigValue: IsBigValueSwap of router/types.go, over the big.Int that the configuration points to.
--   The thresholds stand in a heap, since GetBigValueThreshold of tokens/base.go may change them; the
--   pointers of several configurations may be the same.
-- - Router/Tables: the tables of router/types.go and the queries on them.
-- - Params: params/config.go and params/checkconfig.go. Params/State has the configuration, a map as the
--   list of its entries, and the variables; Params/Blacklist the black lists, with the order in which a
--   loop visits the keys of a map as a parameter; Params/Extra the sets of the
--   extra configuration; Params/Load the load and the reload. log.Fatal is the error runtime_panic.
-- - Examples: a database and a task set in memory, and the theorems at concrete swaps.
--
-- Loops over the rounds of sending and over lists are structural; numerals are printed by recursion on
-- accessibility, so nothing runs on fuel. Logging is left out, and so are the loops that fetch
-- documents and sleep. The chunked queue of tools/fifo stands as a list. uint64 additions wrap where the
-- source adds; timestamps are numbers and their sums do not wrap. A nil slice and an empty one are not
-- told apart. One call sees one time.
--
-- Not modelled: the bridges of the single chains (tokens/eth and its siblings), mpc, rpc, cmd, admin,
-- leveldb, the copies of go-ethereum code (types, tools/rlp, tools/crypto), the queue of tools/fifo, the
-- onchain configuration of the package router, the getters of params and its checks of server, nodes and onchain contract, and the
-- list queries of mongodb/api.go, whose meaning is that of the database.
pub mod Prelude
pub mod Text
pub mod Tokens
pub mod Effect
pub mod Examples
pub mod Mongo
pub mod Params
pub mod Router
pub mod Worker
