-- ===== src/Proto.antt =====
-- docs/skin/prototype.js, the script framework of the documentation site.
pub mod Enumerable
pub mod Text
pub mod Strings
pub mod Hash
pub mod Arrays
pub mod Numbers
pub mod Inspect
pub mod Objects
pub mod Template
pub mod Traversal
pub mod ClassAttribute
pub mod ValueTests
pub mod Ranges
pub mod Executer
pub mod Classes
pub mod Functions
pub mod Storage
pub mod Events
pub mod Ajax
pub mod Forms
pub mod ClassNames
mod Tests
mod ObjectTests
