-- ===== src/ProductHandling/IndexHelper/Insertion.antt =====
-- Which index each key gets while keys are inserted.
use unify_prototype.Common.{
  ℕ, zero, suc, ◌+◌, ◌<◌, ◌≡◌, ◌≢◌, ◌⊎◌, inl, inr, refl, sym, ap, ◌∙◌, List, [], ◌∷◌, none, some,
  arith, length, Option-cases, All, get_elem?,
}
use unify_prototype.Common.OrderedMap.{
  find, put, IsSorted, find-put_self, find-put_ne, put-IsSorted, length-put_new,
}
use unify_prototype.DataModel.Keys.{ProductKey, product_key_ord}
use unify_prototype.DataModel.Index.{ProductResolverIndex, index_of, uint_mod}
use unify_prototype.ProductHandling.IndexHelper.Defs.{
  Helper, Inserted, done, already_exists, insert, get_index,
}

-- A key that is there makes `insert` throw. A new one gets the number of keys for its index, no
-- other key's index changes, and the map stays in order.
pub insert_lem :
    (h : Helper) (key : ProductKey)
    → IsSorted h
    → ((i : ProductResolverIndex) × (find key h ≡ some i) × (insert h key ≡ already_exists key))
      ⊎ ((h' : Helper) × (find key h ≡ none)
          × (insert h key ≡ done h')
          × (get_index h' key ≡ index_of (length h))
          × ((j : ProductKey) → j ≢ key → get_index h' j ≡ get_index h j)
          × (length h' ≡ length h + 1)
          × IsSorted h')
unfolding insert get_index
insert_lem h key s = elim (Option-cases (find key h)) [
  | inr (i, e) ↦ inl (i, e, rw (e, insert) refl)
  | inl e ↦ inr (
    put key (index_of (length h)) h,
    e,
    rw (e, insert) refl,
    rw (find-put_self key (index_of (length h)) h, get_index),
    (λ j ne. rw (find-put_ne key j (index_of (length h)) h ne, get_index)),
    omega (arith, length-put_new key (index_of (length h)) h e),
    put-IsSorted key (index_of (length h)) h s,
  )
]

-- The keys one after the other, up to the first that throws.
unfoldable pub insert_all : Helper → List ProductKey → Inserted
insert_all h [] = done h
insert_all h (k ∷ ks) = elim (insert h k) [
  | done h' ↦ insert_all h' ks
  | already_exists j ↦ already_exists j
]

abbrev pub Distinct : List ProductKey → Type 0
Distinct [] = Unit
Distinct (k ∷ ks) = All (λ j. j ≢ k) ks × Distinct ks

-- What the insertion of `ks` into `h` leads to.
record Numbered (h : Helper) (ks : List ProductKey) : Type 0 where
  result : Helper
  returns : insert_all h ks ≡ done result
  sorted : IsSorted result
  longer : length result ≡ length h + length ks
  numbers :
      (i : ℕ) (k : ProductKey)
      → get_elem? ks i ≡ some k
      → find k result ≡ some (index_of (length h + i))
  kept : (j : ProductKey) → All (λ k. k ≢ j) ks → find j result ≡ find j h

none_after_put :
    (h : Helper) (k : ProductKey) (v : ProductResolverIndex) (ks : List ProductKey)
    → All (λ j. find j h ≡ none) ks
    → All (λ j. j ≢ k) ks
    → All (λ j. find j (put k v h) ≡ none) ks
none_after_put h k v [] n d = tt
none_after_put h k v (j ∷ ks) n d = (find-put_ne k j v h d.0 ∙ n.0, none_after_put h k v ks n.1 d.1)

insert_done :
    (h : Helper) (k : ProductKey)
    → find k h ≡ none
    → insert h k ≡ done (put k (index_of (length h)) h)
unfolding insert
insert_done h k e = rw (e, insert) refl

insert_new :
    (h : Helper) (k : ProductKey) (ks : List ProductKey)
    → find k h ≡ none
    → insert_all h (k ∷ ks) ≡ insert_all (put k (index_of (length h)) h) ks
unfolding insert_all
insert_new h k ks e = rw (insert_done h k e, insert_all) refl

module _ (h : Helper) (k : ProductKey) (ks : List ProductKey) (new : find k h ≡ none)
    (d : All (λ j. j ≢ k) ks) (rest : Numbered (put k (index_of (length h)) h) ks) where
  abbrev v : ProductResolverIndex
  v = index_of (length h)

  numbers_cons :
      (i : ℕ) (j : ProductKey)
      → get_elem? (k ∷ ks) i ≡ some j
      → find j rest.result ≡ some (index_of (length h + i))
  numbers_cons zero j e =
      ap (λ l. find l rest.result) (let q : j ≡ k = cc in q)
      ∙ rest.kept k d
      ∙ find-put_self k v h
      ∙ ap (λ m. some (index_of m)) (omega arith)
  numbers_cons (suc i) j e =
      rest.numbers i j e ∙ ap (λ m. some (index_of m)) (omega (arith, length-put_new k v h new))

  Numbered-cons : Numbered h (k ∷ ks)
  Numbered-cons = record {
    result = rest.result;
    returns = insert_new h k ks new ∙ rest.returns;
    sorted = rest.sorted;
    longer = omega (arith, rest.longer, length-put_new k v h new);
    numbers = numbers_cons;
    kept = λ j a. rest.kept j a.1 ∙ find-put_ne k j v h (λ e. a.0 (sym e));
  }

number :
    (h : Helper) (ks : List ProductKey)
    → IsSorted h
    → Distinct ks
    → All (λ k. find k h ≡ none) ks
    → Numbered h ks
unfolding insert_all
number h [] s d n = record {
  result = h;
  returns = refl;
  sorted = s;
  longer = omega arith;
  numbers = λ i k e. cc;
  kept = λ j _. refl;
}
number h (k ∷ ks) s d n = Numbered-cons h k ks n.0 d.0 (
    number (put k (index_of (length h)) h) ks (put-IsSorted k (index_of (length h)) h s) d.1
      (none_after_put h k (index_of (length h)) ks n.1 d.0))

none_in_empty : (ks : List ProductKey) → All (λ k. find {V = ProductResolverIndex} k [] ≡ none) ks
unfolding find
none_in_empty [] = tt
none_in_empty (k ∷ ks) = (refl, none_in_empty ks)

index_found :
    (h : Helper) (k : ProductKey) (i : ProductResolverIndex) → find k h ≡ some i → get_index h k ≡ i
unfolding get_index
index_found h k i e = rw (e, get_index) refl

pub get_elem?-lt :
    (ks : List ProductKey) (i : ℕ) {k : ProductKey} → get_elem? ks i ≡ some k → i < length ks
get_elem?-lt [] i e = cc
get_elem?-lt (k ∷ ks) zero e = omega arith
get_elem?-lt (k ∷ ks) (suc i) e = omega (arith, get_elem?-lt ks i e)

-- Distinct keys inserted into a new helper get the indices 0, 1, 2, … in the order of insertion, and
-- every one of them is found again: the index of a key is its place, as long as there are fewer
-- than 2^32 keys.
pub insert_all_numbers :
    (ks : List ProductKey)
    → Distinct ks
    → length ks < uint_mod
    → (h : Helper) × (insert_all [] ks ≡ done h)
      × ((i : ℕ) (k : ProductKey) → get_elem? ks i ≡ some k → get_index h k ≡ record { value = i })
      × (length h ≡ length ks)
insert_all_numbers ks d few = (
  r.result,
  r.returns,
  (λ i k e. index_found r.result k _ (r.numbers i k e) ∙ in_range i (get_elem?-lt ks i e)),
  omega (arith, r.longer),
)
  where
    r : Numbered [] ks
    r = number [] ks tt d (none_in_empty ks)

    in_range : (i : ℕ) → i < length ks → index_of (0 + i) ≡ record { value = i }
    in_range i h = ground arith
