-- ===== src/DeepCopy.antt =====
-- api/v1alpha1/zz_generated.deepcopy.go: the generated copies, on a heap of maps and slices.
pub mod Heap
pub mod Structs
pub mod Into
pub mod Plain
pub mod Objects
pub mod ObjectLists
pub mod Shape
pub mod Basic
pub mod Copies
pub mod Runs
pub mod Lists
