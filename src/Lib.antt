-- ===== src/Lib.antt =====
-- A verification library of the ore pool: an on-chain program through which an operator mines for
-- many members, and the operator's server.
--
-- The parts. `program` is the program: a pool account per operator, a member account per miner with
-- its claimable balance and lifetime earnings, a share account per staker and mint. `api` holds the
-- account types, the addresses and the instruction data that program, server and clients share.
-- `server` collects the members' solutions to the current challenge, submits the best one, splits
-- the reward that a webhook reports, records the members' lifetime earnings in a database, and
-- sends them to the program as attributions, which a member may also have signed and send itself.
-- `admin` is the command line with which an operator launches its pool and becomes its first
-- member.
--
-- The files and the code.
--   Prelude      helpers: tests on numbers, results, machine words, stores, and texts with
--                `str::parse` and decimal printing (no code of the program)
--   Api          api/src: State is state/, Instruction is instruction.rs, Error is error.rs, Sdk is
--                sdk.rs (a builder `x` is `build_x`; those of the operator stand in its child
--                Operations), Loaders is loaders.rs
--   Program      program/src: Runtime is what a handler runs against; User is attribute.rs, claim.rs,
--                join.rs and open_share.rs; Stakes is stake.rs and unstake.rs; Admin is launch.rs,
--                open_stake.rs, commit.rs and submit.rs; Dispatch is lib.rs; Sample is a small
--                chain for tests. A handler `process_x` reads the instruction data and calls
--                `x_accounts`, which takes the accounts apart; the two are one function in the
--                source. Their child modules say
--                what held and what was written when a handler succeeded; Frames says what a handler
--                leaves alone; Built is about the instructions of Api/Sdk; Idempotence, Earnings,
--                Numbering, Totals and Stakes/History are about sequences of instructions.
--   Server       server/src: Error is error.rs; Aggregator, Rewards and Cycle are aggregator.rs: the
--                insertion of contributions, the split of a reward, and the way from one challenge to
--                the next with its attestation; Contributor and Nonce are contributor.rs; Validate is
--                tx/validate.rs and Submit is tx/submit.rs; Database is database.rs, and Attribution
--                its stream_members_attribution, of which Landing runs the instructions on the chain
--                of Program and Steps puts it among what else the pool does; Operator is operator.rs; Webhook is webhook.rs; Tasks and Routes are
--                main.rs; Io, Rpc and State are what these functions run in
--   Admin        admin/src: Error is error.rs, Settings and Commands are main.rs with the commands
--                of one step, Init is init.rs; Node is what they run in, and Chain what is relied on
--                of a node and of the chain of Program behind it
--
-- How it is modelled. A public key is a number. The accounts of the program are three stores of
-- decoded accounts by key; `Chain X` adds a state `X` of all other accounts, which only the calls
-- of other programs change. The checks of steel, the loading of other programs' accounts and those
-- calls are the fields of `Runtime X`. A handler returns the next chain or an error; a failed
-- instruction has no effect, as a transaction of Solana has none. `unwrap` on `None` is the error
-- `panicked`. `Custody` is what the stake handlers rely on of the token and boost programs: a
-- transfer moves tokens only out of an account of its authority and into the account named, and
-- other calls do not take any of a pool's tokens. The program's u64 arithmetic is checked where the
-- source checks it; the server's wraps, as in a release build. A `HashMap` is a store and a
-- `HashSet` of contributions a list without two of one member. A table of the database is the list
-- of its rows, and a statement a function on it; a transaction that fails returns no table.
--
-- An asynchronous function that returns a `Result` is `Fallible E S A` (in the server, with its
-- error type, `Io S A`): a function of a state that gives the result and the state after it, also
-- where it fails. `Rpc R` is what the server uses of a Solana node, of the connections to the
-- database and of the decoders of accounts; `R` is all that lies outside. `ServerState R` is what
-- the tasks share: the aggregator, the tables, the two channels and the outside. Tasks.Step is one
-- step of a task: what it does while it holds the lock of the aggregator, or a statement on the
-- tables; Tasks.Steps is any order of such steps. A handler of a request runs as one function;
-- where another task may come between its statements and that matters, a theorem says so. An
-- unbounded channel is a list, and so is the channel of rewards, whose senders wait for room.
-- `sleep` and the logs change nothing.
--
-- Bounds. The retry loops count the attempts that are left, ten or five as in the source, and end
-- with the source's error when there are none. The loops over texts, digits and chunks count down
-- from a number that the input gives (its length, or the number plus one), which is enough since
-- every turn makes the rest shorter; the theorems about them hold for every input. Every other loop
-- is structural over its list. Sums of the server that wrap are shown exact where the hypothesis
-- `Fits` keeps them below 2 ^ 64.
--
-- A route is found by method and path in the order in which the resources are declared; where
-- none is, or a payload cannot be read, the framework answers. The commands of admin keep what
-- they print in their state. The instructions of a batch of attributions are dropped or reach the
-- program, where they land as a whole or not at all, and the server may miss that they did; the
-- tasks of a round end in any order. In the steps of Attribution/Steps a round or an update of a
-- balance is one step: a transaction does not land after it, and no reward is credited between
-- its first and its last statement.
--
-- Not modelled. CORS, JSON, base64 and logging, of which the decoded values are parameters; the
-- byte layout of accounts and the byte order of steel's discriminators; the sending of requests,
-- the files, clients and connections themselves; the clock, which decides when the loop over
-- contributions stops receiving, so that this is an argument of its turn; the crate roots, which
-- only name modules. Lamports and rent are part of the state outside.
pub mod Prelude
pub mod Api
pub mod Program
pub mod Server
pub mod Admin
