-- ===== src/Tests.antt =====
-- Each theorem that has hypotheses, applied where they hold.
mod Data
mod Cache
mod Sessions
mod Models
mod Texts
mod Requests
mod Servers
mod Shared
mod Answered
mod Bound
mod Products
