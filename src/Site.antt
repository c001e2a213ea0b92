-- ===== src/Site.antt =====
-- The scripts of the documentation site: docs/skin/menu.js, getMenu.js, getBlank.js and init.js,
-- and docs/apidocs/zookeeper-server/script.js.
pub mod Menu
pub mod Fields
pub mod Apidocs
mod Tests
