-- ===== src/Scripts/Tables.antt =====
-- scripts/pdf-to-tables.py: the rows of the manual's tables, from the lines of its text. What pypdf reads is the input;
-- regular expressions stand as the functions that match them, over the digits of ASCII.
pub mod Split
pub mod Canonical
pub mod Titles
pub mod Extract
pub mod Rows
pub mod Families
pub mod Extracted
pub mod TableRows
pub mod Sections
pub mod TitleLines
pub mod Printed
