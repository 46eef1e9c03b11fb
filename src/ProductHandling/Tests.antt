-- ===== src/ProductHandling/Tests.antt =====
-- A record with two products, and the properties of builders, records and contexts at it.
use unify_prototype.Common.{ℕ, ◌≡◌, ◌≢◌, refl, ap, List, [], ◌∷◌, some, none, arith, get_elem?}
use unify_prototype.Common.OrderedMap.{find, put}
use unify_prototype.DataModel.Keys.{
  ProductKey, TransitionRecordKey, product_key_ord, cmp_product_key,
}
use unify_prototype.ProductHandling.IndexHelper.Defs.{Helper, done, get_index, insert}
use unify_prototype.ProductHandling.IndexHelper.Insertion.{insert_all}
use unify_prototype.ProductHandling.Builder.{
  Builder, ProductResolversProvider, thrown, determine_products_from, insert_records,
  insert_products, insert_product, make_helper,
}
use unify_prototype.ProductHandling.Agreement.{Agrees, keys_of, determine_products_from-Agrees}
use unify_prototype.ProductHandling.Record.{
  TransitionRecordImpl, make_record, null, resolver, get, get-get_index,
}

abbrev event : TransitionRecordKey
event = record { type_id = record { type_info = 3 } }

abbrev jets : ProductKey
jets = record {
  type_id = record { type_info = 5 };
  module_label = [];
  product_instance_name = [];
  process_name = b'H' ∷ [];
}

abbrev tracks : ProductKey
tracks = record jets { type_id = record { type_info = 4 } }

abbrev provider : List ProductKey → ProductResolversProvider
provider keys = record { resolver_records = event ∷ []; product_keys_for_record = λ r. keys }

determine_products_from-Agrees_example :
    Agrees []
      (determine_products_from [] (provider (jets ∷ tracks ∷ [])))
      (λ s. keys_of s (event ∷ []) (λ r. jets ∷ tracks ∷ []))
determine_products_from-Agrees_example =
    determine_products_from-Agrees [] (provider (jets ∷ tracks ∷ []))

-- The same product twice.
throws_twice :
    determine_products_from [] (provider (jets ∷ jets ∷ []))
    ≡ thrown ((event, (jets, record { value = 0 }) ∷ []) ∷ []) jets
unfolding determine_products_from insert_records insert_products insert_product make_helper insert
    find put
throws_twice = refl

abbrev built : Builder
built = (event, (jets, record { value = 0 }) ∷ []) ∷ []

abbrev record_of : ℕ → TransitionRecordImpl
record_of n = make_record event [] [] n

tracks_not_jets : tracks ≢ jets
tracks_not_jets e = cc (ap (λ k. cmp_product_key k jets) e)

get-get_index_example :
    (h : Helper) × (insert_all [] (jets ∷ tracks ∷ []) ≡ done h)
    × ((i : ℕ) (key : ProductKey) (x : ℕ)
        → get_elem? (jets ∷ tracks ∷ []) i ≡ some key
        → get_elem? (70 ∷ 71 ∷ []) i ≡ some x
        → get (make_record event h (70 ∷ 71 ∷ []) 0) (get_index h key) ≡ resolver x)
    × ((key : ProductKey)
        → find key h ≡ none
        → get (make_record event h (70 ∷ 71 ∷ []) 0) (get_index h key) ≡ null)
get-get_index_example =
    get-get_index event (jets ∷ tracks ∷ []) (70 ∷ 71 ∷ []) 0 ((tracks_not_jets, tt), (tt, tt))
      (omega arith) refl
