-- ===== src/Vectors.antt =====
-- examples/generate_test_vectors.rs: the generator of the protocol's test vectors. A vector is a record
-- in place of its JSON object: what is printed with `{:?}` is the value itself, and texts for the reader
-- and other fields that are the same in every vector of a kind are left out, as are the directory and
-- the file that `main` writes.
pub mod Hex
pub mod Encoded
pub mod Answers
pub mod Codecs
pub mod Frames
mod Examples
