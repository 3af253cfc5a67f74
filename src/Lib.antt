-- ===== src/Lib.antt =====
-- The phygital wallet is bound to a physical token. Its owner signs with a key that a separate page
-- holds, and a service signs as the fee payer against a prepaid fee balance of the token. The
-- development models the TypeScript of that service and of that page.
--
-- Parts and files:
--   Common: shared names, tests on numbers, and tables as lists: `select_first`, `select_sum` and
--     `delete_where` stand for the SQL of the source, `IsKeyed` for a primary key.
--   Errors: workers/shared/errors.ts. A call that may throw gives a `Result`.
--   Sdk: packages/js/phygital-wallet/src, the identification of an instruction by its discriminator
--     and the accounts that the parsers read. Sdk.Compile is wallet/compile.ts: Table keeps the list of
--     accounts and the Map of their indexes in step, Accounts and RoundTrip read the indexes back, Flags
--     and Privileges follow roles. Sdk.Challenges is utils/challenges.ts: Pack reads the packed bytes,
--     Referenced the bytes of the accounts, Binding the digests.
--   TokenStore: workers/api-signer/src/token-store.ts, the ledger of one token. A method is a function
--     from the time and the tables to its answer and the tables. Reserves keeps well-formedness, Run is
--     any sequence of calls, Cover the relation of reserves to the balance, Admission and Expiry the
--     single operations, Ledger, Once and Settled the journal, Rows where the rows of a call come from.
--   SignDecode: workers/api-signer/src/transactions/decode-tx.ts, from a parsed message on.
--   Backend: workers/api-signer/src/backend/secrets.ts, the keys of the fee payers.
--   TokenSigner: workers/api-signer/src/token-signer.ts. `Signer` is the object with its storage; the
--     body of `signTransactions` is a monad whose computations go on, return early or throw, and keep
--     what they wrote in each case; Monad.Posts has its assertions. Keeps and Runs follow a property of
--     the ledger through a call, Life through all the calls of an object, Rollback and Success say what
--     a failing and a succeeding batch leave, Opening and Redelivery what a repeated call of
--     `applyFeeEvents` does.
--   SecureSigner: secure-signer/src. State is state.ts, Blob is wallet-format.ts, Policy is
--     tx/policy.ts with tx/parser.ts. Risk is tx/sign-risk.ts: Levels says what is shown as normal,
--     Critical what as critical. Service is wallet-service.ts with crypto.ts, Protocol is protocol.ts.
--   Api: workers/api/src. Counter is tap/counter-store.ts: Ordered lets the statements of requests
--     interleave. Blobs is owner-wallet/blob-store.ts: Kept follows any puts, Answers one.
--     Fees is workers/api/src/fees with the calls of transactions/token-signer.ts: Fees what is read
--     from a confirmed transaction, Reads what that means, Apply the events and their delivery to the
--     tokens' objects, Sound what an event says of its transaction, Once what another delivery does.
--     Activity is workers/api/src/webhooks/wallet-activity-store.ts: Order the order of the rows,
--     Cursor the text of a cursor, Pages a reader that follows the cursors, Stored what storing does.
--
-- How they interact: `sign_transactions` decodes each wire with SignDecode, asks Backend for the key,
-- and reserves, rebinds and releases through TokenStore; the webhook's events reach TokenStore through
-- `apply_fee_events`, which Fees calls on the object of the token. The policy of the page, and the
-- search for the token in Fees, read the instructions with the Sdk.
--
-- Bounds: lamports and times are natural numbers, since the source keeps them non-negative integers
-- below 2^53; an amount that comes from outside is an integer, with its test written out. Every loop of
-- the modelled code runs over a list and is structural recursion, but for two that count rounds: the
-- batches of Activity take at most one round for each row, and a decimal text at most one for each
-- unit of its number. The reader of Pages gets a number of pages, and its theorem says how many are
-- enough. A handler runs at one time without interleaving, as a Durable Object does between its awaits
-- of storage; Counter lets the statements of other requests run between those of one.
--
-- Parameters: the codecs and cryptography of @solana/kit and of the platform (`Kit`, `KeyCodec`,
-- `Platform`), the data codecs of the generated SDK, the texts of clear-sign.ts (`Texts`), the roles of
-- accounts of @solana/kit (`Roles`), the hashes (`Hashing`), WebCrypto and the passkey (`Crypto`,
-- `PrfProvider`), the codecs of the fee webhook (`Codec`), the JSON and Number of the activity (its
-- `Texts`), the size of a message in bytes, and the error text of D1.
--
-- Not modelled: logging, the `details` of an error and the values put into its text, the pages, routes
-- and database glue of the workers and the app, the single-use challenges in Workers KV (which
-- promises no order between requests), and the on-chain program.
pub mod Api
pub mod Backend
pub mod Common
pub mod Errors
pub mod Sdk
pub mod SecureSigner
pub mod SignDecode
pub mod TokenSigner
pub mod TokenStore
