-- ===== src/Tests.antt =====
-- Runs on concrete inputs.
mod States
mod Run
mod Parts
mod Sessions
mod Processes
mod Clusters
mod Tools
mod Servers
mod Hosts
mod Splices
mod Traces
mod Races
mod Engines
mod Spread
