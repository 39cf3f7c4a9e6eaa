-- ===== src/Tests.antt =====
-- The theorems at concrete inputs, by the part of the program.
mod Layout
mod Clusters
mod Packing
mod Archives
mod Caches
mod Stems
mod Tables
mod Writers
mod Files
mod Searches
mod Links
mod Titles
mod Parts
mod Checks
mod Versions
mod Uuids
