-- ===== src/Core.antt =====
-- The files of core/.
pub mod Buf
pub mod StrArgv
pub mod Command
pub mod Prop
pub mod Trace
pub mod Tile
pub mod Endpoint
pub mod Hkcp
pub mod WsAuth
pub mod Comm
pub mod Options
pub mod Advertise
pub mod ModLoad
