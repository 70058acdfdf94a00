-- ===== src/Timestamp/Format/Spelling.antt =====
-- The format language by its documented tokens, and compilation of a spelled-out list of tokens.
mod Rounds
mod Loop
pub mod Tokens
pub use Loop.{compile_format-spell_all}
pub use Tokens.{Token, spell, spell_all, step_of, steps_of, IsClear}
