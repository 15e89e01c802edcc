-- ===== src/Lib.antt =====
-- The firmware of the LOST Swan-station split-flap display, as definitions that run and theorems about
-- them. Five drums of fifty flaps turn forward only, each by a stepper and one Hall sensor.
--
-- The parts and how they interact. A step interrupt at 50 kHz (components/motion, axis_control.h)
-- advances each drum towards a target and filters its Hall line. A control task at 1 kHz
-- (components/motion/axis_control.cpp) snapshots that state, takes at most one request from the
-- mailbox of the axis, judges the Hall edges, runs the axis state machine and writes a target and
-- a speed back. The frame scheduler (components/frame) shows five slots together: it asks the axes
-- to `go`, starts moves early enough to land on a tick, and brings a column back to its frame
-- after a re-home. The mode manager (components/modes) decides every 50 ms what the five slots
-- are: the clock, a message or the countdown, with its cues and its alarm spin. It finds slots in
-- the ring tables by role, hands frames to the scheduler, and may change mode inside its own tick.
-- Faults are judged per axis and escalated over the whole machine
-- (components/motion/fault_policy.cpp).
--
-- Which file models which part.
--   Common: Boolean tests, lists, bits and integers over the native numbers.
--   Motion/Geometry: components/ring/include/ring/geometry.h and ring.h.
--   Motion/Position, Motion/Ramp: components/motion/include/motion/motion_math.h.
--   Motion/Isr: the interrupt helpers of components/motion/include/motion/axis_control.h, composed as
--     motion.cpp composes them for one axis.
--   Motion/Policy: components/motion/fault_policy.cpp, fault_policy.h and column_mode.h.
--   Motion/Axis: the state, requests and events of axis_control.h and motion_types.h.
--   Motion/Control: components/motion/axis_control.cpp, one function for each C++ function and one for
--     each stage of `axis_control_tick`; what a tick writes is carried in `TickCtx`.
--   Frame: components/frame/frame.cpp and frame.h; the port to motion is a parameter.
--   Button: components/button/gesture.cpp and gesture.h; the shell's loop is a run over samples.
--   Tz/Civil: the civil-date helpers of components/timesvc/tz.cpp; Tz/Parse: its reader of POSIX
--     strings, the cursor being the characters not yet read; Tz/Zone: the rules and conversions.
--   Countdown: the countdown numbers of components/modes/render.cpp.
--   Ring: components/ring/ring_runtime.cpp and ring_runtime.h, the drums as they are configured: their
--     caches by role, the search forward and the check of the roles.
--   Modes/Render, Modes/Clock: the other renderers of render.cpp, and the clock of mode_manager.cpp.
--   Modes/State: the state of `ModeManager` (components/modes/mode_manager.h), what it refers to (Env)
--     and the log of the calls that it makes, the newest first.
--   Modes/Run, Modes/Face: the countdown off and on the display, and the message mode; Modes/Tick: the
--     tick and the change of mode; Modes/Commands, Modes/Displays, Modes/Numbers: the commands.
--   Modes/Acts: what a tick may decide, as a step relation; Modes/Control is the part of the state
--     that decides, Modes/Induction the rule for whole ticks, Modes/Moments, Modes/Entering,
--     Modes/Resume and Modes/Refinement go through the code by it; Modes/Invariants is about the
--     steps and Modes/Runs about runs of ticks.
--   Modes/Course, Modes/Ahead, Modes/Calm, Modes/Termination: how deep a tick goes. Modes/Hold,
--     Modes/Wake, Modes/Arming: holds, the return of the display, and the commands of a countdown.
--   Modes/Wear: components/modes/wear.cpp; Modes/Flips is about its totals.
--   LogRing: components/journal/log_ring.cpp and log_ring.h, LogRing/Reader being its
--     reader; LogRing/Lines says when the bytes hold a list of lines.
--   Audio: components/audio/wav.cpp and wav.h; Audio/Wav is the reader of a header, with the number of
--     values of `size_t` as a parameter.
--   Ota: components/webapi/ota_policy.cpp and ota_policy.h; Ota/Image is the reader of an image, Ota/Boot
--     the confirm watcher of components/net/ota.cpp.
--
-- Numbers. `pos_abs`, `hall_abs` and targets are 64-bit counters that start at 0 and only grow;
-- speeds, tolerances and normalised calibration offsets are never negative: all of these are natural
-- numbers. Counters of 8 and 32 bits wrap as they do in C. Values that may be negative (the edge
-- error, the distance between edges) are integers, cut to 32 bits where the code casts. A ring index
-- is an optional number, RING_INVALID being `none`. `while` loops take fuel: the reduction by whole
-- revolutions as many rounds as its start value, the square root search 18 rounds for a range below
-- two to the eighteenth; theorems state that this is enough. The clamp of a rule's day into its month
-- has five rounds, and one is enough for a rule that was parsed. The eviction of log lines has a round
-- for each line, and its result is shown to make the room. Seconds, day numbers and years of the zone
-- engine are integers of either sign, without a bound; what a failed parse leaves in its output is not
-- modelled.
--
-- A ramp divides by its acceleration, which the load path keeps above 0.
--
-- The times of the mode manager, in ms, and deadlines, in s, are naturals; where the code subtracts,
-- the terms stand on the side where they are added. Its tick and its change of mode call each other: a
-- tick is given three levels, and the theorems say for which managers this is enough. In the code
-- `prev_mode` is set only where the mode changes.
--
-- The atomics of `AxisCtl` are plain fields: the control tick is their only writer. The two
-- increments of the seqlock are kept, the interleaving of its readers is not modelled.
--
-- A day of the clock takes a round for each of its minutes and one more, a run of the countdown for each
-- of its seconds.
--
-- The walk over the chunks of a WAV file takes its number of rounds as an argument; the theorems say
-- for which widths of `size_t` a round for each byte is enough. The device has 32 bits.
--
-- The mutex of the mode manager is not modelled: an operation runs as a whole, as it does under the
-- lock. The renderers are called without their diagnostic output.
--
-- Not modelled: the tasks, pins and logging of motion.cpp, the bench and soak tools, the JSON of
-- the ring tables and their store, configuration, the other services of components/net, the web
-- interface beyond the update policy, the audio player, the console, and the journal beyond the
-- ring of log lines.
pub mod Common
pub mod Motion
pub mod Frame
pub mod Button
pub mod Countdown
pub mod LogRing
pub mod Tz
pub mod Ota
pub mod Ring
pub mod Modes
pub mod Audio
