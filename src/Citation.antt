-- ===== src/Citation.antt =====
-- services/citation_registry.py, services/citations.py and services/mcp_citations.py: the keys by
-- which an agent's reply cites what the run retrieved.
pub mod Registry
mod Tests
