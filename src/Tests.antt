-- ===== src/Tests.antt =====
-- The theorems at concrete inputs, and tests of the definitions.
mod Samples
mod Parsers
mod Simulations
mod Programs
mod SimpleLogs
mod Senders
mod Results
mod Plots
mod Connections
mod Flows
mod Figures
mod Scripts
