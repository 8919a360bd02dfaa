-- ===== src/Search.antt =====
-- Search: from a query in words to the events that match it (include/search, src/search).
pub mod Parser
pub mod Planner
pub mod Executor
