-- ===== src/ListParams.antt =====
-- services/list_params.py: the query parameters of paginated list endpoints.
pub mod Escape
pub mod Parse
mod Tests
