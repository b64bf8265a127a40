-- ===== src/Common.antt =====
-- What the modules share: names of the libraries, tests, lists, dictionaries, results and clocks.
pub mod Tests
pub mod Texts
pub mod Lists
pub mod Dict
pub mod Lookup
pub mod Result
pub mod Time
pub mod Holds
