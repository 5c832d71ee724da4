-- ===== src/Payment.antt =====
-- core/payment: the gateway-neutral types, and the two adapters' verification of webhooks.
pub mod Base
pub mod Json
pub mod Decimal
pub mod Charges
pub mod Collect
pub mod Signature
pub mod Omise
pub mod Stripe
pub mod Authentic
pub mod Rejected
pub mod Events
mod Tests
