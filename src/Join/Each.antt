-- ===== src/Join/Each.antt =====
-- The joins that walk `other` and add its entries: each is an upper bound in its order.
mod Fold
pub mod Sets
pub mod Values
pub use Fold.*
