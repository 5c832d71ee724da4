-- ===== src/Security.antt =====
-- core/security: the required settings and what stops the program at its start, and the redaction of
-- secrets.
pub mod Secrets
pub mod Redaction
pub mod Hidden
pub mod Logged
pub mod Ready
pub mod SelfTest
pub mod Vectors
pub mod StripeVectors
pub mod Passes
pub mod Boot
pub mod Serves
pub mod Example
mod Tests
