-- ===== src/Status.antt =====
-- internal/statuslist and internal/wallet/wallet_status.go: the status list of the wallet.
pub mod Bits
pub mod Bitstring
pub mod Wallet
pub mod Reference
mod Tests
