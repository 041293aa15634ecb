-- ===== src/Action.antt =====
-- The options and modes of actions (action).
pub mod CacheModeType
pub mod OptionType
