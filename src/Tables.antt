-- ===== src/Tables.antt =====
-- The two tables under /etc that the daemon rewrites: /etc/fstab and /etc/crypttab.
pub mod Fstab
pub mod FstabChange
pub mod Crypttab
pub mod CrypttabOption
pub mod Tests
