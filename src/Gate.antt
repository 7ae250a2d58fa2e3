-- ===== src/Gate.antt =====
-- services/extraction_gate.py: limits on extracting large source files.
pub mod Slots
mod Tests
pub mod Attempts
pub mod Waiting
