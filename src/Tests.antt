-- ===== src/Tests.antt =====
-- The theorems at concrete inputs, with runs of the operations: a module for each component.
mod Lists
mod Caching
pub mod Serving
mod Counting
pub mod Framing
mod Answering
mod Browsing
mod Sharing
mod Managing
pub mod Refreshing
mod Pooling
mod Configuring
mod Forwarding
mod Resolving
mod Storing
