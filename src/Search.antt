-- ===== src/Search.antt =====
-- backend/app/search: the models and the route of a search.
pub mod Route
