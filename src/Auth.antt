-- ===== src/Auth.antt =====
-- backend/app/auth: the signer of the session cookies, the session store, and who may use an endpoint.
pub mod Signing
pub mod Access
pub mod Payload
pub mod Sessions
pub mod Slugs
pub mod Forms
pub mod Entry
pub mod Middleware
pub mod Passwords
