-- ===== src/Schema.antt =====
-- The data model: packages/cli/src/schema.ts, the row types of packages/cli/src/store.ts and the
-- provider state of packages/cli/src/provider-contract.ts.
mod Enums
mod Commands
mod Tables
mod Journal
pub use Enums.*
pub use Commands.*
pub use Tables.*
pub use Journal.*
