-- ===== src/ProductHandling/Agreement.antt =====
-- The builder against its records' helpers: each is what the record's own products make of it.
use unify_prototype.Common.{
  ◌≡◌, ◌≢◌, ◌⊎◌, inl, inr, refl, sym, ap, ◌∙◌, true, false, List, [], ◌∷◌, ◌++◌, arith, gather,
  if◌then◌else◌, Bool-cases,
}
use mathlib.Core.Path.{subst}
use unify_prototype.Common.OrderedMap.{find, put, find-put_self, find-put_ne}
use unify_prototype.DataModel.Keys.{
  ProductKey, TransitionRecordKey, transition_record_key_ord, cmp_transition_record_key-eq_iff,
}
use unify_prototype.ProductHandling.IndexHelper.Defs.{
  Helper, Inserted, done, already_exists, insert,
}
use unify_prototype.ProductHandling.IndexHelper.Insertion.{insert_all}
use unify_prototype.ProductHandling.Builder.{
  Builder, ProductResolversProvider, same_record, Built, returned, thrown, or_new, make_helper,
  insert_product, insert_products, insert_records, determine_products_from,
}

-- The products of a record among those that are inserted.
abbrev pub keys_of :
    TransitionRecordKey
    → List TransitionRecordKey
    → (TransitionRecordKey → List ProductKey)
    → List ProductKey
keys_of r rs keys_for = gather (λ s. if same_record r s then keys_for s else []) rs

-- What the helper of a record is after `keys` were inserted for it, if no exception came.
abbrev pub helper_of : Builder → TransitionRecordKey → Helper
helper_of b r = or_new (find r b)

helper_of-make_helper :
    (b : Builder) (r s : TransitionRecordKey) → helper_of (make_helper b r) s ≡ helper_of b s
unfolding make_helper
helper_of-make_helper b r s =
    grind (arith, find-put_self r [] b, find-put_ne r s [] b, cmp_transition_record_key-eq_iff r s)

-- The helper of each record after some products, against the insertion of the record's own.
abbrev pub Agrees : Builder → Built → (TransitionRecordKey → List ProductKey) → Type 0
Agrees b (returned b') own =
    (s : TransitionRecordKey) → insert_all (helper_of b s) (own s) ≡ done (helper_of b' s)
Agrees b (thrown b' k) own =
    (s : TransitionRecordKey) × (insert_all (helper_of b s) (own s) ≡ already_exists k)

-- More keys after an insertion.
abbrev then_insert : Inserted → List ProductKey → Inserted
then_insert (done h) ys = insert_all h ys
then_insert (already_exists k) ys = already_exists k

insert_first :
    (i : Inserted) (xs ys : List ProductKey)
    → ((h : Helper) → insert_all h (xs ++ ys) ≡ then_insert (insert_all h xs) ys)
    → elim i [ done h ↦ insert_all h (xs ++ ys) | already_exists j ↦ already_exists j ]
      ≡ then_insert (elim i [ done h ↦ insert_all h xs | already_exists j ↦ already_exists j ]) ys
insert_first (done h) xs ys rest = rest h
insert_first (already_exists j) xs ys rest = refl

insert_all-append :
    (h : Helper) (xs ys : List ProductKey)
    → insert_all h (xs ++ ys) ≡ then_insert (insert_all h xs) ys
unfolding insert_all
insert_all-append h [] ys = refl
insert_all-append h (x ∷ xs) ys = insert_first (insert h x) xs ys (λ h'. insert_all-append h' xs ys)

insert_all-cons :
    (h : Helper) (x : ProductKey) (xs : List ProductKey) {h' : Helper}
    → insert h x ≡ done h'
    → insert_all h (x ∷ xs) ≡ insert_all h' xs
unfolding insert_all
insert_all-cons h x xs e = rw (e, insert_all) refl

insert_all-cons_thrown :
    (h : Helper) (x : ProductKey) (xs : List ProductKey) {k : ProductKey}
    → insert h x ≡ already_exists k
    → insert_all h (x ∷ xs) ≡ already_exists k
unfolding insert_all
insert_all-cons_thrown h x xs e = rw (e, insert_all) refl

insert_all-nil : (h : Helper) → insert_all h [] ≡ done h
unfolding insert_all
insert_all-nil h = refl

Agrees-shift :
    (b b1 : Builder) (x : Built) (own own1 : TransitionRecordKey → List ProductKey)
    → ((s : TransitionRecordKey)
        → insert_all (helper_of b s) (own s) ≡ insert_all (helper_of b1 s) (own1 s))
    → Agrees b1 x own1
    → Agrees b x own
Agrees-shift b b1 (returned b') own own1 h a = λ s. h s ∙ a s
Agrees-shift b b1 (thrown b' k) own own1 h (s, e) = (s, h s ∙ e)

-- The keys that go to the record `r` alone.
abbrev only : TransitionRecordKey → List ProductKey → TransitionRecordKey → List ProductKey
only r keys s = if same_record s r then keys else []

same_self : (r : TransitionRecordKey) → same_record r r ≡ true
same_self r = ground (arith, cmp_transition_record_key-eq_iff r r)

same_record-eq : (s r : TransitionRecordKey) → same_record s r ≡ true → s ≡ r
same_record-eq s r e = ground (arith, cmp_transition_record_key-eq_iff s r)

same_record-ne : (s r : TransitionRecordKey) → same_record s r ≡ false → s ≢ r
same_record-ne s r e q = ground (arith, cmp_transition_record_key-eq_iff s r)

only-same :
    (r s : TransitionRecordKey) (keys : List ProductKey)
    → same_record s r ≡ true
    → only r keys s ≡ keys
only-same r s keys e = rw e refl

only-other :
    (r s : TransitionRecordKey) (keys : List ProductKey)
    → same_record s r ≡ false
    → only r keys s ≡ []
only-other r s keys e = rw e refl

module _ (b : Builder) (r : TransitionRecordKey) (key : ProductKey) where
  abbrev after : Helper → Builder
  after h = put r h (make_helper b r)

  helper_of-after_same : (h : Helper) (s : TransitionRecordKey) → s ≡ r → helper_of (after h) s ≡ h
  helper_of-after_same h s e = rw (e, find-put_self r h (make_helper b r)) refl

  helper_of-after_other :
      (h : Helper) (s : TransitionRecordKey) → s ≢ r → helper_of (after h) s ≡ helper_of b s
  helper_of-after_other h s ne =
      ap or_new (find-put_ne r s h (make_helper b r) ne) ∙ helper_of-make_helper b r s

  -- Once the first of the keys is in, the others go on from there.
  one_more :
      (keys : List ProductKey) (h : Helper)
      → insert (helper_of b r) key ≡ done h
      → (s : TransitionRecordKey)
      → insert_all (helper_of b s) (only r (key ∷ keys) s)
        ≡ insert_all (helper_of (after h) s) (only r keys s)
  one_more keys h e s = elim (Bool-cases (same_record s r)) [
    | inl same ↦
        let p = same_record-eq s r same in
        ap (insert_all (helper_of b s)) (only-same r s (key ∷ keys) same)
        ∙ insert_all-cons (helper_of b s) key keys (ap (λ x. insert (helper_of b x) key) p ∙ e)
        ∙ ap (λ x. insert_all x keys) (sym (helper_of-after_same h s p))
        ∙ ap (insert_all (helper_of (after h) s)) (sym (only-same r s keys same))
    | inr other ↦
        ap (insert_all (helper_of b s)) (only-other r s (key ∷ keys) other)
        ∙ ap (λ x. insert_all x []) (sym (helper_of-after_other h s (same_record-ne s r other)))
        ∙ ap (insert_all (helper_of (after h) s)) (sym (only-other r s keys other))
  ]

insert_product-done :
    (b : Builder) (r : TransitionRecordKey) (key : ProductKey) {h : Helper}
    → insert (helper_of b r) key ≡ done h
    → insert_product b r key ≡ returned (put r h (make_helper b r))
unfolding insert_product
insert_product-done b r key e = rw (e, insert_product) refl

insert_product-thrown :
    (b : Builder) (r : TransitionRecordKey) (key : ProductKey) {k : ProductKey}
    → insert (helper_of b r) key ≡ already_exists k
    → insert_product b r key ≡ thrown (make_helper b r) k
unfolding insert_product
insert_product-thrown b r key e = rw (e, insert_product) refl

insert_products-returned :
    (b : Builder) (r : TransitionRecordKey) (key : ProductKey) (keys : List ProductKey)
    {b' : Builder}
    → insert_product b r key ≡ returned b'
    → insert_products b r (key ∷ keys) ≡ insert_products b' r keys
unfolding insert_products
insert_products-returned b r key keys e = rw (e, insert_products) refl

insert_products-thrown :
    (b : Builder) (r : TransitionRecordKey) (key : ProductKey) (keys : List ProductKey)
    {b' : Builder} {k : ProductKey}
    → insert_product b r key ≡ thrown b' k
    → insert_products b r (key ∷ keys) ≡ thrown b' k
unfolding insert_products
insert_products-thrown b r key keys e = rw (e, insert_products) refl

Inserted-cases :
    (i : Inserted) → ((h : Helper) × (i ≡ done h)) ⊎ ((k : ProductKey) × (i ≡ already_exists k))
Inserted-cases (done h) = inl (h, refl)
Inserted-cases (already_exists k) = inr (k, refl)

insert_products-Agrees :
    (b : Builder) (r : TransitionRecordKey) (keys : List ProductKey)
    → Agrees b (insert_products b r keys) (only r keys)
unfolding insert_products
insert_products-Agrees b r [] = λ s. elim (Bool-cases (same_record s r)) [
  | inl same ↦
      ap (insert_all (helper_of b s)) (only-same r s [] same) ∙ insert_all-nil (helper_of b s)
  | inr other ↦
      ap (insert_all (helper_of b s)) (only-other r s [] other) ∙ insert_all-nil (helper_of b s)
]
insert_products-Agrees b r (key ∷ keys) = elim (Inserted-cases (insert (helper_of b r) key)) [
  | inl (h, e) ↦
      subst (λ x. Agrees b x (only r (key ∷ keys)))
        (sym (insert_products-returned b r key keys (insert_product-done b r key e)))
        (Agrees-shift b (after b r key h) (insert_products (after b r key h) r keys)
          (only r (key ∷ keys)) (only r keys) (one_more b r key keys h e)
          (insert_products-Agrees (after b r key h) r keys))
  | inr (k, e) ↦
      subst (λ x. Agrees b x (only r (key ∷ keys)))
        (sym (insert_products-thrown b r key keys (insert_product-thrown b r key e)))
        (
          r,
          ap (insert_all (helper_of b r)) (only-same r r (key ∷ keys) (same_self r))
              ∙ insert_all-cons_thrown (helper_of b r) key keys e,
        )
]

module _ (keys_for : TransitionRecordKey → List ProductKey) where
  records_step :
      (b : Builder) (r : TransitionRecordKey) (rs : List TransitionRecordKey) (x : Built)
      → Agrees b x (only r (keys_for r))
      → ((b1 : Builder) → Agrees b1 (insert_records b1 keys_for rs) (λ s. keys_of s rs keys_for))
      → Agrees b
          (elim x [ returned b1 ↦ insert_records b1 keys_for rs | thrown b1 k ↦ thrown b1 k ])
          (λ s. only r (keys_for r) s ++ keys_of s rs keys_for)
  records_step b r rs (returned b1) a rest =
      Agrees-shift b b1 (insert_records b1 keys_for rs)
        (λ s. only r (keys_for r) s ++ keys_of s rs keys_for) (λ s. keys_of s rs keys_for)
        (λ s.
          insert_all-append (helper_of b s) (only r (keys_for r) s) (keys_of s rs keys_for)
          ∙ ap (λ i. then_insert i (keys_of s rs keys_for)) (a s))
        (rest b1)
  records_step b r rs (thrown b1 k) (s, e) rest = (
    s,
    insert_all-append (helper_of b s) (only r (keys_for r) s) (keys_of s rs keys_for)
        ∙ ap (λ i. then_insert i (keys_of s rs keys_for)) e,
  )

  insert_records-Agrees :
      (b : Builder) (rs : List TransitionRecordKey)
      → Agrees b (insert_records b keys_for rs) (λ s. keys_of s rs keys_for)
  unfolding insert_records
  insert_records-Agrees b [] = λ s. insert_all-nil (helper_of b s)
  insert_records-Agrees b (r ∷ rs) =
      records_step b r rs (insert_products b r (keys_for r))
        (insert_products-Agrees b r (keys_for r)) (λ b1. insert_records-Agrees b1 rs)

-- If `determineProductsFrom` returns, the helper of each record is what the insertion of the
-- provider's products for that record, in their order, makes of the helper that was there before
-- (a new one if there was none); and if it throws, then that insertion throws the same for some record.
pub determine_products_from-Agrees :
    (b : Builder) (p : ProductResolversProvider)
    → Agrees b
        (determine_products_from b p)
        (λ s. keys_of s p.resolver_records p.product_keys_for_record)
unfolding determine_products_from
determine_products_from-Agrees b p =
    insert_records-Agrees p.product_keys_for_record b p.resolver_records
