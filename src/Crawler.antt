-- ===== src/Crawler.antt =====
-- src/url_crawler/crawler.py: `Crawler`.
pub mod Deps
pub mod State
pub mod Page
pub mod Workers
pub mod Seed
mod Frames
mod Accounting
mod Tasks
mod Schedules
pub mod Growth
mod Preparation
mod Bookkeeping
mod Enabled
mod Budget
mod Moves
mod Progress
mod Ledger
mod Once
mod Delay
mod Claims
mod Chain
mod Limit
mod Allowed
pub mod OnSite
pub mod Fuse
pub mod Abort
mod Examples
mod Quiet
mod SeedAccounting
