-- ===== src/Extract.antt =====
-- backend/internal/extract: the parts that work on text.
pub mod Chunk
pub mod Blocks
pub mod Sink
pub mod Proto
pub mod Xml
pub mod Iwork
pub mod Keynote
pub mod Office
pub mod Xlsx
pub mod Pdf
pub mod Plain
pub mod Package
pub mod Dispatch
