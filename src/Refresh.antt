-- ===== src/Refresh.antt =====
-- The refresh of access tokens (internal/codexonly/refresh.go, and AuthManager of server.go).
pub mod Exchange
pub mod Loop
pub mod Current
pub mod Tokens
pub mod Attempts
pub mod Settled
pub mod Shared
