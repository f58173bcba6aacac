-- ===== src/Json.antt =====
-- src/cn/studease/core/stu_json.c: the parser and the printer.
pub mod Value
pub mod Print
pub mod Parse
pub mod Steps
pub mod Strings
pub mod Keys
pub mod Dispatch
pub mod Separators
pub mod Printable
pub mod Words
pub mod Reads
pub mod Arrays
pub mod Objects
pub mod RoundTrip
pub mod Refused
pub mod Duplicate
pub mod Fuel
pub mod Enough
pub mod Rounds
pub mod Ends
mod Tests
