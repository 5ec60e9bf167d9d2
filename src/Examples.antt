-- ===== src/Examples.antt =====
-- Concrete inputs for the theorems on internal and cmd.
pub mod Memory
pub mod Lists
pub mod Caches
pub mod Orders
pub mod Letters
pub mod Managers
pub mod Services
pub mod Configs
pub mod Consumers
pub mod Schedules
pub mod Databases
pub mod Servers
pub mod Systems
pub mod Refusals
pub mod Producers
