-- ===== src/ProductHandling/Record.antt =====
-- ProductHandling/ProductHandling/{TransitionRecordImpl, TransitionContext}.h and the latter's .cc
-- file: the resolvers of a transition record, and the records of a transition. `prefetchAsync` is
-- declared in the header and defined nowhere.
use unify_prototype.Common.{
  ℕ, ◌+◌, ◌≡◌, refl, ap, ◌∙◌, ◌<◌, Bool, true, false, List, [], ◌∷◌, Option, none, some, arith,
  if◌then◌else◌, get_elem?, length,
}
use unify_prototype.Common.OrderedMap.{find, put, find-put_self, find-put_ne}
use unify_prototype.DataModel.Keys.{
  ProductKey, product_key_ord, TransitionRecordKey, transition_record_key_ord,
  cmp_transition_record_key, cmp_transition_record_key-eq_iff,
}
use unify_prototype.DataModel.Index.{ProductResolverIndex, is_uninitialized, uint_mod}
use unify_prototype.ProductHandling.IndexHelper.Defs.{Helper, done, get_index}
use unify_prototype.ProductHandling.IndexHelper.Insertion.{
  insert_all, insert_all_numbers, Distinct, get_elem?-lt,
}

-- The members; a resolver is named by a number.
pub record TransitionRecordImpl : Type 0 where
  pub key : TransitionRecordKey
  pub resolvers : List ℕ
  pub helper : Helper
  pub cache_identifier : ℕ
  pub replication_index : ℕ

-- The constructor, of a helper that is not null.
unfoldable pub make_record : TransitionRecordKey → Helper → List ℕ → ℕ → TransitionRecordImpl
make_record k h rs i = record {
  key = k;
  resolvers = rs;
  helper = h;
  cache_identifier = 0;
  replication_index = i;
}

-- What `get` returns: a null pointer, a resolver, or nothing defined, as the index is out of range.
pub data Got : Type 0 where
  null out_of_range : Got
  resolver : ℕ → Got

unfoldable pub get : TransitionRecordImpl → ProductResolverIndex → Got
get r index =
    if is_uninitialized index
    then null
    else elim (get_elem? r.resolvers index.value) [ none ↦ out_of_range | some x ↦ resolver x ]

-- `records_`, with the record for the pointer to it.
abbrev pub TransitionContext : Type 0
TransitionContext = List (TransitionRecordKey × TransitionRecordImpl)

-- `emplace` changes nothing if the key is there.
unfoldable pub insert_record : TransitionContext → TransitionRecordImpl → TransitionContext
insert_record c r = elim (find r.key c) [ none ↦ put r.key r c | some old ↦ c ]

unfoldable pub get_record : TransitionContext → TransitionRecordKey → Option TransitionRecordImpl
get_record c k = find k c

unfoldable pub insert_records : TransitionContext → List TransitionRecordImpl → TransitionContext
insert_records c [] = c
insert_records c (r ∷ rs) = insert_records (insert_record c r) rs

abbrev pub same_record : TransitionRecordKey → TransitionRecordKey → Bool
same_record j k = elim (cmp_transition_record_key j k) [
  | Prim.Native.Nat.Ordering.eq ↦ true
  | _ ↦ false
]

-- The first of the records with the key.
abbrev pub first_with :
    TransitionRecordKey → List TransitionRecordImpl → Option TransitionRecordImpl
first_with k [] = none
first_with k (r ∷ rs) = if same_record k r.key then some r else first_with k rs

abbrev pub or_else :
    Option TransitionRecordImpl → Option TransitionRecordImpl → Option TransitionRecordImpl
or_else none o = o
or_else (some x) o = some x

get_record-insert_record :
    (c : TransitionContext) (r : TransitionRecordImpl) (k : TransitionRecordKey)
    → get_record (insert_record c r) k
      ≡ or_else (get_record c k) (if same_record k r.key then some r else none)
unfolding get_record insert_record
get_record-insert_record c r k = grind (
  arith,
  find-put_self r.key r c,
  find-put_ne r.key k r c,
  cmp_transition_record_key-eq_iff k r.key,
)

or_else-none : (o : Option TransitionRecordImpl) → o ≡ or_else o none
or_else-none none = refl
or_else-none (some r) = refl

or_else-if :
    (b : Bool) (r : TransitionRecordImpl) (o p : Option TransitionRecordImpl)
    → or_else (or_else o (if b then some r else none)) p ≡ or_else o (if b then some r else p)
or_else-if true r none p = refl
or_else-if false r none p = refl
or_else-if b r (some x) p = refl

-- A context gives the record that was inserted first under a key: what it held before, or else the
-- first of the new records with that key, and null if there is none.
pub get_record-insert_records :
    (c : TransitionContext) (rs : List TransitionRecordImpl) (k : TransitionRecordKey)
    → get_record (insert_records c rs) k ≡ or_else (get_record c k) (first_with k rs)
unfolding insert_records
get_record-insert_records c [] k = or_else-none (get_record c k)
get_record-insert_records c (r ∷ rs) k =
    get_record-insert_records (insert_record c r) rs k
    ∙ ap (λ o. or_else o (first_with k rs)) (get_record-insert_record c r k)
    ∙ or_else-if (same_record k r.key) r (get_record c k) (first_with k rs)

-- From a key to its resolver: of a record whose helper was filled with distinct keys, fewer than
-- 2^32 - 1, and which has a resolver for each, `get` of the index of the key inserted at a place is
-- the resolver at that place, and a key that the helper does not know gives null.
pub get-get_index :
    (k : TransitionRecordKey) (keys : List ProductKey) (resolvers : List ℕ) (replication : ℕ)
    → Distinct keys
    → length keys + 1 < uint_mod
    → length resolvers ≡ length keys
    → (h : Helper) × (insert_all [] keys ≡ done h)
      × ((i : ℕ) (key : ProductKey) (x : ℕ)
          → get_elem? keys i ≡ some key
          → get_elem? resolvers i ≡ some x
          → get (make_record k h resolvers replication) (get_index h key) ≡ resolver x)
      × ((key : ProductKey)
          → find key h ≡ none
          → get (make_record k h resolvers replication) (get_index h key) ≡ null)
unfolding get make_record get_index
get-get_index k keys resolvers replication d few same =
    let (h, done_h, numbers, long) = insert_all_numbers keys d (omega arith) in
    (
      h,
      done_h,
      (λ i key x e q. rw (numbers i key e) (ground (arith, get_elem?-lt keys i e, q))),
      (λ key e. rw (e, get_index) refl),
    )
