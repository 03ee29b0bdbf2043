-- ===== src/Examples.antt =====
-- Each theorem that has hypotheses or parameters, applied to concrete values.
mod Setup
mod Packets
mod Programs
mod Exchanges
mod Connections
mod Inputs
mod Registries
mod Broadcasts
mod Servings
mod Statuses
mod Sessions
mod Endings
mod Networks
mod Arrivals
mod Histories
mod Openings
