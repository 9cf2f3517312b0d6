-- ===== src/Tests.antt =====
-- Sample volumes, and each result at concrete data.
mod Formats
pub mod Sample
mod FreeLists
mod Bitmaps
mod Layers
mod Trees
mod Engine
mod Checks
