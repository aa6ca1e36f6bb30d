-- ===== src/Types/Floats.antt =====
-- `f64` and `f32` values are their bit patterns. The program does not implement the arithmetic of
-- the machine, so the operations that it calls are the fields of a record that definitions take.
use veloce_ce.Base.{ℕ, Bool}

pub data F64 : Type 0 where
  bits : ℕ → F64

-- The pattern of 0.0 is zero.
abbrev pub zero_float : F64
zero_float = bits 0

pub record Floats : Type 0 where
  -- `n as f64`
  pub of_nat : ℕ → F64
  pub add : F64 → F64 → F64
  pub sub : F64 → F64 → F64
  pub mul : F64 → F64 → F64
  pub div : F64 → F64 → F64
  -- `f64::powf`
  pub powf : F64 → F64 → F64
  -- `>`
  pub gt : F64 → F64 → Bool
