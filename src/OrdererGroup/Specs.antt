-- ===== src/OrdererGroup/Specs.antt =====
-- The specs of the children of an OrdererGroup.
pub mod Consenter
pub mod Batcher
pub mod Assembler
pub mod Router
pub mod Settings
