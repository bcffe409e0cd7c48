-- ===== src/Auth.antt =====
-- The auth-service: accounts, sessions and tokens (auth-service/handlers, auth-service/internal).
pub mod Accounts
pub mod Rows
pub mod Issuer
pub mod Backend
pub mod Cookies
pub mod Grant
pub mod Login
pub mod Refresh
pub mod Logout
pub mod Plans
pub mod Reset
pub mod Proxy
