-- ===== src/Classes/Gates.antt =====
-- The laws of classes/and, classes/or and classes/not.
pub mod Output
pub mod DeMorgan
