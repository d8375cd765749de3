-- ===== src/Tests.antt =====
-- The theorems at concrete inputs.
pub mod Data
mod Addr
mod Config
mod Pods
mod Injection
mod Numbers
pub mod Objects
pub mod Services
pub mod Clients
mod Servers
mod Reviews
