-- ===== src/Route.antt =====
-- route/: the interface of the default route, as each system finds it.
pub mod Linux
pub mod Darwin
pub mod Windows
pub mod Others
mod Tests
use cropstun.Base.{ℕ, List}

-- `Route`
pub record Route : Type 0 where
  pub interface_name : List ℕ
  pub interface_index : ℕ
