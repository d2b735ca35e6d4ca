-- ===== src/Lib.antt =====
-- fairchain: the consensus core of a proof-of-work blockchain node, written in Go.
--
-- The program. A node reads blocks and transactions from its peers (internal/types decodes them),
-- hashes them (internal/crypto), checks a block's structure, header and inputs
-- (internal/consensus, which runs the spending scripts of internal/script under the parameters of
-- internal/params), and connects the block to the set of unspent outputs (internal/utxo), keeping
-- undo data for a later disconnection. internal/chain puts this together: it keeps the main chain,
-- takes a block in, switches to a better chain, holds blocks whose parent is not known, and writes
-- everything to a store (internal/store). Transactions that are in no block wait in the pool of
-- internal/mempool, which checks them against the same set.
--
-- The files. A name of Go is kept in the spelling of this library: `ConnectBlock` is
-- `connect_block`.
--   Base: results of calls (a value, an error, a run-time panic), bytes, lists measured by native
--     numbers, and Go maps as association lists.
--   Types/Reader, Types/Varint, Types/Transaction, Types/Block: the decoders and encoders of
--     internal/types/transaction.go and internal/types/block.go. A reader is a function on the
--     bytes that are left; Types/Hash: internal/types/hash.go.
--   Crypto/Digest, Crypto/Keys, Crypto/Merkle, Crypto/Target: internal/crypto/hash.go, keys.go,
--     merkle.go and target.go. Crypto/Work compares hashes and targets as numbers.
--   Script/Machine: internal/script/script.go. One round of the loop is `round`, its switch is
--     `step`. Script/Limits and Script/P2pkh are about its ends and its decisions.
--   Params: internal/params/params.go.
--   Utxo/Entry, Utxo/Undo, Utxo/Set, Utxo/Connect: internal/utxo/utxo.go, its records, their stored
--     forms, the map, and the connection and disconnection of blocks.
--   Consensus/Inputs: internal/consensus/txvalidation.go. Consensus/Structure and
--     Consensus/Timestamp: internal/consensus/validation.go. Consensus/Pow:
--     internal/consensus/pow/engine.go. Consensus/Supply puts the checks of a block together.
--   Mempool: internal/mempool/mempool.go. Mempool/Steps has the calls that change the pool as a
--     step relation and the pools that they reach.
--   Store/Index, Store/Interface: the index record, the batch and the interface of internal/store,
--     from blockindex.go, chainstate.go and store.go. Store/Record: the stored form of the index
--     record. Store/Files: blockfile.go, the files of blocks and undo data.
--     Consensus/Engine: internal/consensus/engine.go.
--   Chain/State: the type of internal/chain/chain.go, and its operations as actions on the chain in
--     memory and the store, both of which keep after an error what was written before it.
--     Chain/Queries, Chain/Locator, Chain/Ancestors: what only reads. Chain/Persist: the batches of
--     the chainstate. Chain/Reorg: `reorg`. Chain/Accept: `ProcessBlock` and `processOrphans`.
--     Chain/Init: start-up. Chain/Safety is about rejected blocks, Chain/Choice about the tip.
-- Files called Tests run the definitions at concrete inputs.
--
-- Integers. A uint32 or uint64 is a native number, and the wrap-around of a sum is written out as
-- `% 2 ^ 32` or `% 2 ^ 64`. The conversion of a stored length to int keeps its wrap at 2^63, where
-- `make` panics; `make` is taken to succeed up to 2^48 bytes. In Script and in Crypto/Merkle an index
-- or a slice out of range is a result of its own, a panic or `none`; a slice may not go beyond the
-- length of what it is taken from, which is its capacity too.
--
-- Fuel. The loop of the script engine has the length of the script for its fuel, and each round
-- reads a byte. The loop of the merkle root has the number of hashes, and each level is shorter
-- than the one before. The loop that counts the bytes of a target has 300, and a compact target
-- has at most 255. The loop of `MineGenesis` has 2^32 rounds, after which the nonce has wrapped. The
-- loop of `BlockLocator` has 43 rounds, which reach height 0 from every uint32 height. The loop of
-- `processOrphans` has one round for the block and one for each orphan. The walk of `reorg` to the
-- fork has 2^32 rounds, one for each height of a header. Every other loop is a structural recursion.
--
-- Parameters. SHA-256 returns 32 bytes, RIPEMD-160 returns 20, and the secp256k1 library parses and
-- checks signatures; nothing else is assumed of them. `getAncestor` is any function of a height. The
-- chain works over any store with the operations of `BlockStore` and any engine, and takes the two
-- clocks, which stand still during a call, and the start of the random order of the orphan pool.
-- The files of blocks are any files that can be opened to append, written and read; where a theorem
-- needs it, `IsAppendOnly` says that bytes once in a file stay there, that a write that succeeds adds
-- its bytes at the end, and that one that fails may add some; `IsStated` says that `os.Stat` gives the
-- length of a file, and fails only where there is none.
--
-- Not modelled. Go's order over a map is taken as the order of the list. Locks serialise the calls
-- of a component, and a call is one step. Networking, the database behind the store, the search for
-- the last block file at start-up, the RPC server, the wallet and the miner are outside this library:
-- most of it is input and output. The floating-point fields of `GetChainInfo` and the text of error
-- messages are left out; an error is its kind.
pub mod Base
pub mod Types
pub mod Crypto
pub mod Params
pub mod Script
pub mod Utxo
pub mod Consensus
pub mod Mempool
pub mod Store
pub mod Chain
