-- ===== src/Numbering.antt =====
-- services/numbering.go and services/po_number.go: the number of the next document of a kind in a
-- financial year. A `seqType` that is none of the four kinds is printed in upper case, which
-- depends on Unicode tables, so `strings.ToUpper` is a parameter.
pub mod Format
mod Tests
pub mod Sequence
pub mod FinancialYear
pub mod Distinct
pub mod Advance
pub mod Unique
pub mod Successive
