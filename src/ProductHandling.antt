-- ===== src/ProductHandling.antt =====
-- The sources of ProductHandling/.
pub mod IndexHelper
pub mod Builder
pub mod Agreement
pub mod Record
mod Tests
