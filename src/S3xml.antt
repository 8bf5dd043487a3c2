-- ===== src/S3xml.antt =====
-- s3xml/: documents of S3 answers over rapidxml.
pub mod Rapidxml
pub mod Ops
pub mod Laws
pub mod Build
pub mod Append
pub mod Find
pub mod Document
pub mod Search
pub mod Fill
pub mod Read
mod Tests
