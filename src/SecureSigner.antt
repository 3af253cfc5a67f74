-- ===== src/SecureSigner.antt =====
-- secure-signer/src: the page that holds the owner's key, with the codes of protocol.ts.
pub mod State
pub mod Blob
pub mod Policy
pub mod Risk
pub mod Service
pub mod Protocol

pub data ErrorCode : Type 0 where
  invalid_message unsupported_protocol unsupported_version malformed_transaction : ErrorCode
  invalid_wallet_blob unsupported_credential policy_rejected user_cancelled : ErrorCode
  authentication_failed decryption_failed wallet_mismatch replay_rejected : ErrorCode
  internal_error blob_unavailable : ErrorCode
