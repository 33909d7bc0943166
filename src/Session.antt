-- ===== src/Session.antt =====
-- src/game_session: the bindings that other parts validate against, and the session manager.
pub mod Binding
pub mod Manager
