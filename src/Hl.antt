-- ===== src/Hl.antt =====
-- The helper classes of src/hl.
pub mod Event
pub mod Numbers
pub mod Params
pub mod SmartPtr
pub mod Thread
pub mod Timer
