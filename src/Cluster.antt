-- ===== src/Cluster.antt =====
-- The programs under cluster: what they share, cluster/common/lcs_common.c, and
-- cluster/quicksort/main.c, whose sorts take the same steps.
pub mod Sort
pub mod Strings
pub mod Merge
pub mod Ints
pub mod Slots
pub mod Directory
pub mod Collect
pub mod Details
mod Tests
