-- ===== src/Examples.antt =====
-- A cluster and a Cloudflare account in memory, and each theorem that has hypotheses at one run.
pub mod Memory
pub mod Site
mod Rules
mod Ingresses
mod Endings
mod Tunnels
mod Cloud
mod Shelf
mod Workers
mod Start
mod Copies
mod Clones
mod Matchers
mod Whole
