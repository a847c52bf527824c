-- ===== src/Classes/History.antt =====
-- classes/history: the log of signal values (history.c) and its reader (hakit-history.c).
pub mod Value
pub mod Writer
pub mod Reader
pub mod Consumes
pub mod Entries
pub mod Selection
pub mod Feed
pub mod Object
pub mod OneBucket
pub mod RoundTrip
