-- ===== src/Actions.antt =====
-- The conditions under which an action is offered (web/src/actions).
pub mod When
mod Tests
