-- ===== src/Gguf.antt =====
-- src/gguf.rs: the loader of a model file.
pub mod Reader
pub mod Values
pub mod Tensors
pub mod Load
pub mod InBounds
pub mod Alignment
pub mod Safety
pub mod Sizes
pub mod Placed
pub mod Names
