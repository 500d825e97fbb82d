-- ===== src/Tests.antt =====
-- Concrete runs: the theorems at inputs that exercise the code.
mod Playground
mod Retry
mod Processor
mod Redelivery
mod Catalogs
mod Generator
mod Stream
mod ReadApi
mod Windows
mod Detection
mod Commits
mod Reference
mod Loadgen
mod Mains
mod Spend
mod Spending
mod Travelling
