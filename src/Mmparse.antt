-- ===== src/Mmparse.antt =====
-- mmparse.py: the parsers of channel traces and of mahimahi's link logs. An open file is the list of
-- its lines.
pub mod LogSimple
pub mod TraceFile
pub mod Delays
pub mod Throughput
