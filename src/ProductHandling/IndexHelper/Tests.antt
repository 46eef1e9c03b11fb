-- ===== src/ProductHandling/IndexHelper/Tests.antt =====
-- A helper with two products of one type, and the properties at it.
use unify_prototype.Common.{ℕ, ◌≤◌, ◌≡◌, ◌≢◌, refl, ap, [], ◌∷◌, some, arith, length, get_elem?}
use unify_prototype.Common.OrderedMap.{find, put, IsSorted}
use unify_prototype.DataModel.Keys.{Text, ProductKey, product_key_ord, cmp_product_key}
use unify_prototype.DataModel.Index.{ProductResolverIndex}
use unify_prototype.ProductHandling.IndexHelper.Defs.{
  Helper, done, insert, get_index, without_process, position, finalize,
}
use unify_prototype.ProductHandling.IndexHelper.Insertion.{insert_all, insert_all_numbers}
use unify_prototype.ProductHandling.IndexHelper.Earliest.{finalize_earliest}

abbrev key : ℕ → Text → ProductKey
key t process = record {
  type_id = record { type_info = t };
  module_label = b'm' ∷ [];
  product_instance_name = [];
  process_name = process;
}

abbrev hlt : Text
hlt = b'H' ∷ b'L' ∷ b'T' ∷ []

abbrev reco : Text
reco = b'R' ∷ b'E' ∷ b'C' ∷ b'O' ∷ []

abbrev at : ℕ → ProductResolverIndex
at n = record { value = n }

-- RECO was inserted first; the map holds HLT first.
abbrev two : Helper
two = (key 5 hlt, at 1) ∷ (key 5 reco, at 0) ∷ []

inserted : insert_all [] (key 5 reco ∷ key 5 hlt ∷ []) ≡ done two
unfolding insert_all insert find put
inserted = refl

reco_first : get_index (finalize two (reco ∷ hlt ∷ [])) (key 5 []) ≡ at 0
unfolding get_index finalize find put position
reco_first = refl

hlt_first : get_index (finalize two (hlt ∷ reco ∷ [])) (key 5 []) ≡ at 1
unfolding get_index finalize find put position
hlt_first = refl

-- A product that was inserted with no process name loses its own entry.
explicit_empty :
    get_index (finalize ((key 5 [], at 0) ∷ (key 5 hlt, at 1) ∷ []) (hlt ∷ [])) (key 5 []) ≡ at 1
unfolding get_index finalize find put position
explicit_empty = refl

two-IsSorted : IsSorted two
two-IsSorted = ((refl, tt), (tt, tt))

hlt_not_reco : key 5 hlt ≢ key 5 reco
hlt_not_reco e = cc (ap (λ k. cmp_product_key k (key 5 reco)) e)

insert_all_numbers_example :
    (h : Helper) × (insert_all [] (key 5 reco ∷ key 5 hlt ∷ []) ≡ done h)
    × ((i : ℕ) (k : ProductKey)
        → get_elem? (key 5 reco ∷ key 5 hlt ∷ []) i ≡ some k
        → get_index h k ≡ at i)
    × (length h ≡ 2)
insert_all_numbers_example =
    insert_all_numbers (key 5 reco ∷ key 5 hlt ∷ []) ((hlt_not_reco, tt), (tt, tt)) (omega arith)

found_hlt : find (key 5 hlt) two ≡ some (at 1)
unfolding find
found_hlt = refl

finalize_earliest_example :
    (chosen : ProductKey) × (find chosen two
      ≡ some (get_index (finalize two (reco ∷ hlt ∷ [])) (key 5 [])))
    × (without_process chosen ≡ key 5 [])
    × ((k : ProductKey) (i : ProductResolverIndex)
        → find k two ≡ some i
        → without_process k ≡ key 5 []
        → position chosen.process_name (reco ∷ hlt ∷ [])
          ≤ position k.process_name (reco ∷ hlt ∷ []))
finalize_earliest_example =
    finalize_earliest two (reco ∷ hlt ∷ []) (key 5 hlt) (at 1) two-IsSorted (refl, (refl, tt))
      found_hlt
