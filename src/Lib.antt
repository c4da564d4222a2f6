-- ===== src/Lib.antt =====
-- Tupelo, a notary group of signers that agree in rounds on the order of the transactions of many
-- chain trees. This library models the signer's consensus (signer/gossip), the token ledger and
-- the transactions of a chain tree (sdk/consensus), and what a client checks (sdk/proof, sdk/gossip).
--
-- The parts and their files:
--   * signer/gossip/snowball.go is Snowball: Tick is tick, PreferInLock is prefer, Reset is reset.
--     Snowball.Streak runs a sequence of ticks; Majority, Decision, Progress and Counts are about it.
--   * signer/gossip/vote.go is Vote, and Vote.Tallies for calculateTallies, ComputeProfitWeights and
--     Normalize.
--   * signer/gossip/mempool.go is Mempool: Add, BulkDelete, DeleteIDAndConflictSet, Contains and
--     Preferred are add, bulk_delete, delete_id_and_conflict_set, contains_all and preferred.
--   * signer/gossip/snowballnetwork.go is Snowballer: Start and doTick, which screens the checkpoints
--     of the peers against the mempool, tallies the votes and ticks the Snowball.
--   * signer/gossip/state.go is GlobalState: Find, addInflights and backgroundProcess.
--   * signer/gossip/tracing.go is Request, and sdk/gossip/types/checkpoint.go is Checkpoint.
--   * signer/gossip/rounds.go is Rounds: newRound, restoreRound, Get and SetCurrent, with FetchCheckpoint
--     and FetchHamt of sdk/gossip/types/rounds.go.
--   * signer/gossip/node.go is Node: handleAddBlockRequest stores the request in the mempool or in
--     flight, and handleSnowballerDone moves the decided requests from the mempool to the state of
--     the round and starts the next round; Node.Decided is what it takes from the round that ends.
--   * sdk/consensus/tree_ledger.go is Tokens.Ledger: MintToken, SendToken, ReceiveToken and
--     EstablishToken are mint_token, send_token, receive_token and establish_token, on the tree that
--     the ledger holds. Tokens.Account is what they promise, without trees; Tokens.Ledger.Refinement
--     relates the two, Tokens.Ledger.Operations runs sequences of them, and
--     Tokens.Account.Conservation and Maximum are about the balance and the monetary policy.
--   * sdk/consensus/transactions.go is Tokens.Transactions, with the sender's side of a receive in
--     Tokens.Transactions.Sending, and where the send stands in Tokens.Transactions.Sent; Tokens.Path, Tokens.Name and Tokens.Canonical for DecodePath,
--     TokenName and CanonicalTokenName. Tokens.Name also has AddrToDid and DidToAddr of
--     sdk/consensus/consensus.go.
--   * SignatureMap of sdk/consensus/consensus.go is SignatureMaps.
--   * sdk/signatures/signature.go is Signatures: RestoreBLSPublicKey, Valid, BLSSign and
--     AggregateBLSSignatures; Signatures.Counts is about the counts of the signers.
--   * sdk/proof/proof.go is Proof: Verify is verify, with its parts verify_round, verify_checkpoint,
--     verify_request and verify_object; Proof.Soundness is about what it accepts.
--   * sdk/gossip/client/roundsubscriber.go is Subscriber: handleMessage and handleQuorum are
--     handle_message and handle_quorum, and the conflict set's add is add.
--   * sdk/gossip/types/graftedownership.go is Owners: ResolveOwners is resolve_owners, and
--     Owners.Termination is about its recursion.
--   * sdk/gossip/types/validators.go is Validators, as far as IsTokenRecipient goes.
-- Outcome is the result of the code of the sdk: a panic, an error or a value.
-- GoMap and GoString are Go's maps and strings. Examples holds the tests.
--
-- The order in which `range` visits a map is a parameter, which keeps each entry exactly as often as
-- it stands in the map; calls that visit a map at different times have orders of their own.
--
-- Code outside the repository is a record of operations and of the behaviour that it documents, in
-- External: identifiers, float64, the HAMT, the block store, the archive of the rounds, the LRU
-- cache, the DAG of a chain tree, grafted chain trees, and cryptography. Each has an instance in which
-- the code runs.
--
-- Mutable Go state is passed explicitly, and a method under a lock is one step. Every loop is
-- structural recursion over a list, but for two recursions on fuel: format_uint has 20, which is the
-- most digits that a uint64 has, and resolve_owners needs one more than there are chain trees, as no
-- tree is visited twice. The ints count, beta and k are not bounded; totalCount and the counts wrap at
-- 64 and 16 bits. The sums and the balance of a token wrap at 64 bits.
--
-- Logs are left out with their arguments, so that Tick's log of a preferred vote without a checkpoint,
-- which would dereference nil, is not a panic of the model.
--
-- Not modelled: the actors, streams and timers, the rest of the client library, and the set-up of a
-- node.
pub mod Prelude
pub mod GoMap
pub mod GoString
pub mod External
pub mod Checkpoint
pub mod Outcome
pub mod SignatureMaps
pub mod Signatures
pub mod Proof
pub mod Subscriber
pub mod Tokens
pub mod Owners
pub mod Validators
pub mod Vote
pub mod Snowball
pub mod Request
pub mod Mempool
pub mod Snowballer
pub mod GlobalState
pub mod Rounds
pub mod Node
pub mod Examples
