-- ===== src/Tests.antt =====
-- Concrete runs of the models: each theorem at an input where its conditions hold.
pub mod Data
pub mod Wire
pub mod Maps
pub mod Collisions
pub mod States
pub mod Knobs
pub mod Threads
pub mod Talks
pub mod Chains
pub mod Devices
pub mod Refreshes
pub mod Manual
pub mod Papers
pub mod PremiumDrive
pub mod Printed
pub mod Sections
pub mod Areas
pub mod Wiring
