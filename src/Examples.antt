-- ===== src/Examples.antt =====
-- Concrete inputs at which the theorems with hypotheses apply.
pub mod Arrays
pub mod Assembly
pub mod Cpus
pub mod Devices
pub mod Expressions
pub mod Links
pub mod Lists
pub mod Machines
pub mod Maps
pub mod Programs
pub mod Words
