-- ===== src/Modes.antt =====
-- components/modes: which mode owns the display, the countdown, and the frames that are shown.
pub mod Render
pub mod State
pub mod Clock
pub mod Run
pub mod Face
pub mod Tick
pub mod Control
pub mod Course
pub mod Ahead
pub mod Calm
pub mod Termination
pub mod Induction
pub mod Acts
pub mod Moments
pub mod Entering
pub mod Resume
pub mod Refinement
pub mod Invariants
pub mod Runs
pub mod Numbers
pub mod Commands
pub mod Displays
pub mod Hold
pub mod Arming
pub mod Wake
pub mod Wear
pub mod Flips
mod Examples
