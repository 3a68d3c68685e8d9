-- ===== src/Lib.antt =====
-- A model of the Enjin Wallet Daemon (src/), which signs the transactions that the platform holds for it.
--
-- The program. Two workers ask the platform for pending work, page by page: one for transactions, one
-- for managed wallets. Each is a poller (`start_polling`) that sends a page to its processor
-- (`launch_job_scheduler`), waits for the outcome, and decides how to go on. A `WorkTrigger` that
-- other tasks signal, and a fallback poll that depends on the Pusher connection, wake the pollers.
-- The transaction processor keeps a nonce cache, signs each request and submits the batch.
--
-- The files.
--   Base: names, tests, lists, maps, machine words and results that all parts share.
--   Retry: src/retry.rs, `should_continue_empty_drain` and the delays.
--   WorkTrigger: src/work_trigger.rs, `TriggerState` and the methods of `WorkTrigger`; Wait has the
--     two waits, History relates the state to the signals that have arrived, Debounce and Renewal
--     say when the waits end, Delivery has the signals of other tasks during an await.
--   Poller: src/work_trigger.rs, `PusherStatus` and `PusherAwarePoller`.
--   RetryWait: `wait_for_retry_or_trigger` of src/transaction.rs and src/wallet.rs.
--   Types: src/types.rs, `Chain` and `Network` with their conversions, and the cache's keys.
--   Junction: `derive_junction` of src/wallet.rs and `derive_signer` of src/transaction.rs.
--   FuelTank: src/transaction/fuel_tank.rs, `sign_dispatch`; Measure is the visitor that finds where an
--     argument ends, with the limit on nesting; Slices, Arguments and Named have lemmas, Layout, Refusal and
--     Measure/Depth the theorems.
--   Transaction: src/transaction.rs. Request converts a page of rows, Step decides after a page; Polling
--     has the variables of the poller, what it awaits and what it does, and Scan a round of its loop;
--     Extrinsic has the payloads and the parameters of the handler, Nonces is the cache, Handler is
--     `transaction_handler`, whose theorems are in Signed (the signing loop), Cache (the refresh), Outcome and
--     Report, with the lemmas of Assignment and Picked; Scheduler is the processor's loop.
--   Wallet: src/wallet.rs, in the same parts; Derive is `derive_wallets`.
--   Websocket: src/websocket.rs. Frames has the frames and the configuration, Redaction the errors of
--     Pusher, Clock steps that take time, Handshake is `connect_and_subscribe`, Listen is `listen`, and
--     Connection is the loop of `run`, which signals the triggers and sets the Pusher status.
--   Crypto: src/crypto.rs, the encrypted seed; Opened has its theorem, Base64 is
--     `base64_encode`.
--   Seed: Files is a file system, Loader is src/wallet_loader.rs with `write_seed` of src/importer.rs;
--     the theorems on it are in Writes and Restart, Migration and Rekeyed (a seed of the first
--     version), Choice and Identity (any load), Retention and Import (an imported seed); Printed is
--     what is printed of it.
--   Env: src/env_loader.rs, the search for `.env` and its decoding.
--   Query: `execute_query` of src/utils.rs, over the cells of src/global.rs; Answer says when a query succeeds,
--     Reported what its error says.
--   PlatformClient: src/platform_client.rs and src/multitenant.rs, the mutations; Accepted and Secret have
--     theorems on them, and EndToEnd puts them below the two processors.
--   ChainInfo: src/chain_info.rs with the store of src/global.rs; Stored is on one update of the store and Block
--     on the block that is asked for.
--   Startup: src/main.rs. Commands is `main` with its subcommands over the file system, Launch is the way
--     from the key to the tasks; Registered, Imported and Recovered put the start-up above PlatformClient
--     and Seed.
--   Samples, Query/Samples and Seed/Samples: concrete parameters for the examples in the Tests modules.
--
-- The model. A method that holds the trigger's mutex for its whole body is a function on the state. A
-- round of a poller is a function of its local variables, of the trigger, and of what it awaits: the
-- response, the acknowledgement, the jitter and the signals that other tasks deliver meanwhile.
-- It returns the new variables and a list of effects (waits, lookups, ticks, retry waits). An error that
-- ends the poller is an `err`. The handler is a fold over the requests. Hash sets are lists read
-- through `member`, hash maps association lists read through `lookup`. Times and durations are
-- milliseconds; u32 and u64 arithmetic has its wrap-around or saturation written out where the code asks for it.
-- Elsewhere an overflow is a panic, since overflow checks are on: in the handler (the nonces and the expiry
-- of a fuel tank signature) it is an `err`. Every loop
-- is a structural recursion, but for two: the decimal digits of an i64 are made on fuel, for 19
-- places, which is what the largest needs, and the visitor of a fuel tank call recurses on fuel 130,
-- one more than the depths from 0 to 129 at which it can be called. A panic is an error value of its own
-- where the code tells it from an error.
--
-- Parameters. Keys and signatures, the SCALE codec and the runtime metadata, hexadecimal text, the HTTP
-- client and its retries, the generated queries, the construction of a chain client, JSON, the
-- cryptography of seeds, what is drawn at random and what a socket delivers are arguments. What
-- the platform answers to the handler may differ from tick to tick.
--
-- Not modelled. The client that the handler signs with at a block is made by the subxt library from the stored client,
-- so that the handler has it as a parameter. The text of log lines and what is printed is left out, but for
-- the debug logs of requests and responses and the seed that `print-seed` prints. The code that a macro generates from the GraphQL schema is
-- left out, and so are the tests and the deployment.
pub mod Base
pub mod Retry
pub mod WorkTrigger
pub mod Poller
pub mod RetryWait
pub mod Types
pub mod Junction
pub mod FuelTank
pub mod Transaction
pub mod Wallet
pub mod Websocket
pub mod Env
pub mod Crypto
pub mod Seed
pub mod Samples
pub mod Query
pub mod PlatformClient
pub mod ChainInfo
pub mod Startup
