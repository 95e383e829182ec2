-- ===== src/Seal.antt =====
-- seal.py: the encryption of a folder's memory at rest. Disk is the part of the disk that it
-- touches, Envelope the blob and its cryptography, Folder the operations.
pub mod Disk
pub mod Envelope
pub mod Outcome
pub mod Folder
pub mod ReadThrough
pub mod Reliable
pub mod Pack
pub mod Sinks
pub mod Keys
pub mod Sealed
pub mod Restored
pub mod RoundTrip
pub mod Crash
pub mod Refused
pub mod Passphrase
pub mod Legacy
