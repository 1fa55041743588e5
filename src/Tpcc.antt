-- ===== src/Tpcc.antt =====
-- The generator of TPCC traces (experiments/trace_gen/tpcc_trace_gen).
pub mod Draws
pub mod Generator
pub mod Ownership
pub mod Transactions
pub mod Traces
pub mod Tests
