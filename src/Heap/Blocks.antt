-- ===== src/Heap/Blocks.antt =====
-- The heap as a list of blocks in the order of their addresses, and what the operations of
-- src/kmalloc.c are to do to such a list.
mod Defs
mod FirstFit
mod Coalesce
unfoldable pub use Defs.*
pub use FirstFit.*
pub use Coalesce.*
