-- ===== src/Policy.antt =====
-- pkg/policy: the decisions on tool calls and on tunnel signals.
pub mod BeforeTool
pub mod Slow
pub mod Router
mod Tests
