-- ===== src/Tests.antt =====
-- Small instances of what the model leaves open, and the theorems at concrete inputs.
pub mod Toys
pub mod Graph
pub mod Turns
pub mod Texts
pub mod Streams
pub mod Wire
pub mod Channels
pub mod Servers
pub mod Catalog
pub mod Watch
pub mod Verdicts
