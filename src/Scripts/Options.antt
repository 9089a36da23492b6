-- ===== src/Scripts/Options.antt =====
-- scripts/options-to-json.py: the table of a block's settings, from its lines to the dict that is written as JSON.
pub mod Ranges
pub mod Tails
pub mod Reading
pub mod Cells
pub mod Names
pub mod Lines
pub mod AddressLines
pub mod Params
pub mod OneSetting
pub mod Spans
pub mod RoundTrip
