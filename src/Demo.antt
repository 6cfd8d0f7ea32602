-- ===== src/Demo.antt =====
-- The small examples of the repository: examples/basic_frame.rs and examples/replay_protection.rs. An
-- `assert!` that fails, an `expect` and an `unwrap` of an error are the outcome panic; what is printed is
-- left out, but for the values that the first example prints.
pub mod BasicFrame
pub mod ReplayProtection
mod Examples
