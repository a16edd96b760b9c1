-- ===== src/Examples.antt =====
-- The theorems at concrete inputs.
pub mod Tables
pub mod KeyedLists
pub mod Handles
pub mod Strings
pub mod Commands
pub mod Lists
pub mod Signals
pub mod Profile
pub mod Chmod
pub mod Bsearch
pub mod Math
pub mod Filescan
pub mod Lgets
