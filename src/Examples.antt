-- ===== src/Examples.antt =====
-- Concrete libraries and databases, the tests, and the theorems at concrete inputs.
mod Codec
mod Pairs
mod Memory
mod Setup
mod Store
mod Accounts
mod Disk
mod Turns
mod Requests
mod Admin
mod Bucket
mod Connections
mod Service
mod Cluster
mod Sql
mod Router
mod Session
mod Logging
mod Starting
mod Downloads
mod Tests
