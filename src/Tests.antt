-- ===== src/Tests.antt =====
-- Concrete runs of the theorems.
mod Fixtures
mod PolicyTests
mod LedgerTests
mod StoreTests
mod ProbeTests
mod HttpTests
mod SyncTests
mod GateTests
mod QueriesTests
mod StartupTests
mod DemoTests
