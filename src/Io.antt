-- ===== src/Io.antt =====
-- Reading from and writing to a connection (pkg/io and its packages reader and writer).
pub mod Source
pub mod Reader
pub mod Buffer
pub mod Limit
pub mod Writer
pub mod BufferWriter
