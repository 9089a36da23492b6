-- ===== src/Scripts.antt =====
-- The scripts that make the spec files: tables from the text of the manual, and the JSON that the library loads.
pub mod Options
pub mod Tables
pub mod Converters
pub mod Check
pub mod Manual
pub mod Maps
pub mod Pipeline
