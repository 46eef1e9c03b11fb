-- ===== src/DataModel/Index.antt =====
-- DataModel/DataModel/ProductResolverIndex.h.
use unify_prototype.Common.{ℕ, ◌-◌, ◌%◌, ◌^◌, Bool, ◌==◌}

pub record ProductResolverIndex : Type 0 where
  pub value : ℕ

abbrev pub uint_mod : ℕ
uint_mod = 2 ^ 32

-- `std::numeric_limits<unsigned int>::max()`.
abbrev pub uninitialized_value : ℕ
uninitialized_value = uint_mod - 1

-- The default constructor.
abbrev pub uninitialized : ProductResolverIndex
uninitialized = record { value = uninitialized_value }

-- The constructor from a `size_t`, which is narrowed to `unsigned int`.
abbrev pub index_of : ℕ → ProductResolverIndex
index_of n = record { value = n % uint_mod }

abbrev pub is_uninitialized : ProductResolverIndex → Bool
is_uninitialized i = i.value == uninitialized_value
