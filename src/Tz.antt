-- ===== src/Tz.antt =====
-- components/timesvc/tz.cpp
pub mod Civil
pub mod Calendar
pub mod NextDay
pub mod Zone
pub mod Local
pub mod Parse
pub mod Rules
mod Examples
