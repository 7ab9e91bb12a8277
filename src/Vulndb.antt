-- ===== src/Vulndb.antt =====
-- internal/vulndb: the vulnerability database. `Models` are the rows, `Parser` makes them from OSV
-- records, `Index` builds and queries the package index, `Matching` answers the proxy's question.
-- `Gorm` is the database, `Store` writes it, `Columns` are its JSON columns, and `Sync` fills it.
pub mod Models
pub mod Parser
pub mod Index
pub mod Matching
pub mod Gorm
pub mod Columns
pub mod Store
pub mod Sync
mod Examples
