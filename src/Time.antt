-- ===== src/Time.antt =====
-- Calendar time, its texts and their reading: common/utils/SPTime.h and SPTime.cc.
pub mod Calendar
pub mod Months
pub mod Days
pub mod Seconds
pub mod Mask
pub mod Read
pub mod Print
pub mod Parse
pub mod Names
pub mod Digits
pub mod RoundTrip
pub mod Http
pub mod FromHttp
pub mod Faults
pub mod Runs
