-- ===== src/Fat.antt =====
-- src/fatparser.c and the sector access of src/diskreader.c: a FAT32 volume.
pub mod Volume
pub mod Table
pub mod Copies
pub mod Entries
pub mod Empty
pub mod Chains
pub mod Files
pub mod Extend
pub mod Names
pub mod Directory
pub mod Listing
pub mod Paths
pub mod Locations
pub mod Changes
pub mod Freed
pub mod Contents
pub mod InPlace
pub mod Parts
pub mod Normal
pub mod ShortNames
mod Tests
