-- ===== src/ProductHandling/IndexHelper.antt =====
-- ProductHandling/ProductHandling/ProductResolverIndexHelper.h and its .cc file: from the keys of
-- products to the indices of their resolvers.
pub mod Defs
pub mod Insertion
pub mod Finalizing
pub mod Earliest
mod Tests
