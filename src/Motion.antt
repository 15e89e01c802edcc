-- ===== src/Motion.antt =====
-- components/motion, components/ring/include/ring/geometry.h and ring.h: how the five drums turn.
pub mod Geometry
pub mod Position
pub mod Ramp
pub mod Isr
pub mod Policy
pub mod Axis
pub mod Control
mod Examples
