-- ===== src/Prelude/Libm.antt =====
-- The functions of the C library's <cmath> that the source calls, as parameters.
pub record Libm (D : Type 0) : Type 0 where
  pub exp : D → D
  pub pow : D → D → D
  pub sqrt : D → D
