-- ===== src/Core.antt =====
-- core.py: detectors, capability tokens, the audit log, and the egress, ingress and text locks.
pub mod Data
pub mod Luhn
pub mod Patterns
pub mod Redact
pub mod Fold
pub mod TierA
pub mod TierB
pub mod Token
pub mod Egress
pub mod Ingress
pub mod TierC
pub mod TextLock
pub mod Audit
pub mod Ensemble
