-- ===== src/Api.antt =====
-- workers/api/src: what the API worker keeps and books, behind its routes. Counter is the counters of
-- taps, Blobs the encrypted wallets, Fees the fee events of a transaction, Activity the wallets'
-- activity.
pub mod Counter
pub mod Blobs
pub mod Fees
pub mod Activity
