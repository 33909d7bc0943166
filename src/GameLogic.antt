-- ===== src/GameLogic.antt =====
-- src/game_logic: the bounded command queue and the fixed-tick logic loop.
pub mod CommandQueue
pub mod LogicLoop
