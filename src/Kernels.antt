-- ===== src/Kernels.antt =====
-- src/kernels: the numbers of the CPU kernels. An f32 is its bit pattern, and its arithmetic, that of
-- the machine, is a parameter.
pub mod Rows
pub mod Fused
pub mod Widths
pub mod Threads
pub mod Shared
use ds4_rs.Base.{ℕ}

-- The operations of `f32` that the products of rows use, on bit patterns. A number of 8 bits is its
-- bit pattern as well.
pub record Floats : Type 0 where
  pub add : ℕ → ℕ → ℕ
  pub mul : ℕ → ℕ → ℕ
  -- `as f32` of an i8
  pub of_i8 : ℕ → ℕ
