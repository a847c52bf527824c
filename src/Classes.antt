-- ===== src/Classes.antt =====
-- The classes of objects.
pub mod Gpio
pub mod Proc
pub mod Endpoints
pub mod History
pub mod Calls
pub mod And
pub mod Or
pub mod Not
pub mod Gates
pub mod TimerOff
pub mod TimerOn
pub mod TimerPulse
pub mod TimerClock
pub mod RelayBistable
pub mod Cmp
pub mod Mux
