-- ===== src/Command.antt =====
-- `command.hpp` and `command.cpp`, one module for each part.
pub mod Names
pub mod Branches
pub mod Execute
pub mod Fold
pub mod Writes
pub mod AllOrNothing
pub mod Keys
pub mod Agree
pub mod Delegated
