-- ===== src/Tests.antt =====
-- Runs of the model on concrete inputs, and the theorems at inputs that meet their hypotheses.
mod Cursors
mod Connections
mod Receivers
mod Streams
mod Systems
mod Readers
mod Requests
mod Containers
mod Lifecycles
mod Collectors
mod Loglines
mod Configs
mod Discoveries
