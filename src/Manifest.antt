-- ===== src/Manifest.antt =====
-- tests/vector_manifest.rs: the check that every test vector of the manifest is exercised by a test, and
-- the loaders tests/vector_pfp_codec.rs and tests/vector_sap_codec.rs. Files are arguments: `none` is a
-- file that cannot be read. A set of texts is a list in the order of insertion, a text the list of its code
-- points, and the parsed JSON of the crate `serde_json` what the code asks of it.
pub mod Text
pub mod Waivers
pub mod Ids
pub mod Passes
pub mod Loaders
pub mod Goldens
pub mod Walk
mod Examples
