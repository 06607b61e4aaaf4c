-- ===== src/Metadata.antt =====
-- light-rocr/loader/metadata_reader.cpp: the metadata of a code object.

mod Examples
pub mod Note
pub mod MessagePack
pub mod Kinds
pub mod Arguments
pub mod Document
