-- ===== src/Wallet.antt =====
-- Server-side wallets and the escrow mirror: src/blockchain-wallet.
pub mod Escrow
pub mod Slippage
pub mod Keys
