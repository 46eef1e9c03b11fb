-- ===== src/ProductHandling/Builder.antt =====
-- ProductHandling/ProductHandling/ProductResolverIndexHelpersBuilder.h and its .cc file: an index
-- helper for each transition record. A helper is changed by nobody else, so its `shared_ptr` is the
-- helper itself.
use unify_prototype.Common.{
  ◌≡◌, refl, Bool, true, false, List, [], ◌∷◌, map, Option, none, some, arith,
}
use unify_prototype.Common.OrderedMap.{find, put}
use unify_prototype.DataModel.Keys.{
  ProductKey, TransitionRecordKey, transition_record_key_ord, cmp_transition_record_key, Text,
}
use unify_prototype.ProductHandling.IndexHelper.Defs.{
  Helper, done, already_exists, insert, finalize,
}

-- `helpers_`.
abbrev pub Builder : Type 0
Builder = List (TransitionRecordKey × Helper)

-- The interface `ProductResolversProvider`, whose implementations are not of this repository.
pub record ProductResolversProvider : Type 0 where
  pub resolver_records : List TransitionRecordKey
  pub product_keys_for_record : TransitionRecordKey → List ProductKey

abbrev pub same_record : TransitionRecordKey → TransitionRecordKey → Bool
same_record j k = elim (cmp_transition_record_key j k) [
  | Prim.Native.Nat.Ordering.eq ↦ true
  | _ ↦ false
]

-- A call that returns, or that passes on the exception of `insert`; the builder after it.
pub data Built : Type 0 where
  returned : Builder → Built
  thrown : Builder → ProductKey → Built

-- `make_shared<ProductResolverIndexHelper>()` for the null of a new entry.
abbrev pub or_new : Option Helper → Helper
or_new none = []
or_new (some h) = h

-- `helpers_[recordKey]`, and the new helper if it was null.
unfoldable pub make_helper : Builder → TransitionRecordKey → Builder
make_helper b r = elim (find r b) [ none ↦ put r [] b | some h ↦ b ]

-- The body of the two loops.
unfoldable pub insert_product : Builder → TransitionRecordKey → ProductKey → Built
unfolding make_helper
insert_product b r key = elim (insert (or_new (find r b)) key) [
  | done changed ↦ returned (put r changed (make_helper b r))
  | already_exists k ↦ thrown (make_helper b r) k
]

unfoldable pub insert_products : Builder → TransitionRecordKey → List ProductKey → Built
insert_products b r [] = returned b
insert_products b r (key ∷ keys) = elim (insert_product b r key) [
  | returned b' ↦ insert_products b' r keys
  | thrown b' k ↦ thrown b' k
]

unfoldable pub insert_records :
    Builder → (TransitionRecordKey → List ProductKey) → List TransitionRecordKey → Built
insert_records b keys_for [] = returned b
insert_records b keys_for (r ∷ rs) = elim (insert_products b r (keys_for r)) [
  | returned b' ↦ insert_records b' keys_for rs
  | thrown b' k ↦ thrown b' k
]

unfoldable pub determine_products_from : Builder → ProductResolversProvider → Built
determine_products_from b provider =
    insert_records b provider.product_keys_for_record provider.resolver_records

unfoldable pub finalize_helpers : Builder → List Text → Builder
finalize_helpers b order = map (λ e. (e.0, finalize e.1 order)) b

unfoldable pub used_records : Builder → List TransitionRecordKey
used_records b = map (λ e. e.0) b

unfoldable pub helper_for : Builder → TransitionRecordKey → Option Helper
helper_for b r = find r b

-- `finalize` finalizes the helper of each record, and neither adds nor removes a record.
pub helper_for-finalize_helpers :
    (b : Builder) (order : List Text) (r : TransitionRecordKey)
    → (helper_for (finalize_helpers b order) r
        ≡ elim (helper_for b r) [ none ↦ none | some h ↦ some (finalize h order) ])
      × (used_records (finalize_helpers b order) ≡ used_records b)
unfolding helper_for finalize_helpers used_records find
helper_for-finalize_helpers [] order r = (refl, refl)
helper_for-finalize_helpers ((s, h) ∷ b) order r =
    let (f, u) = helper_for-finalize_helpers b order r in ground (arith, f, u)
