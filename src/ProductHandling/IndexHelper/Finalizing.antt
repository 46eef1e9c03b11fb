-- ===== src/ProductHandling/IndexHelper/Finalizing.antt =====
-- What `finalize` makes of a lookup.
use Prim.Native.Nat.{eq}
use unify_prototype.Common.{
  ◌≡◌, ◌≢◌, inl, inr, refl, sym, ap, ◌∙◌, Bool, true, false, List, [], ◌∷◌, Option, none, some,
  arith, Bool-cases, if◌then◌else◌,
}
use unify_prototype.Common.OrderedMap.{
  find, put, IsSorted, find-put_self, find-put_ne, put-IsSorted, find-Above, find-cons_self,
  find-cons_ne,
}
use unify_prototype.DataModel.Keys.{
  Text, ProductKey, product_key_ord, cmp_product_key, cmp_product_key-eq_iff,
}
use unify_prototype.DataModel.Index.{ProductResolverIndex}
use unify_prototype.ProductHandling.IndexHelper.Defs.{
  Helper, get_index, without_process, Default, is_empty, prefer, or_no_default, defaults,
  put_defaults, finalize,
}

abbrev pub same_key : ProductKey → ProductKey → Bool
same_key a b = elim (cmp_product_key a b) [ eq ↦ true | _ ↦ false ]

pub same_key_iff : (a b : ProductKey) → (same_key a b ≡ true) → a ≡ b
same_key_iff a b h = ground (arith, cmp_product_key-eq_iff a b)

pub same_key_ne : (a b : ProductKey) → (same_key a b ≡ false) → a ≢ b
same_key_ne a b h = ground (arith, cmp_product_key-eq_iff a b)

pub same_key_self : (a : ProductKey) → same_key a a ≡ true
same_key_self a = ground (arith, cmp_product_key-eq_iff a a)

-- The first loop as it concerns one key with no process name.
unfoldable pub best : List Text → ProductKey → Helper → Option Default → Option Default
best order d [] acc = acc
best order d ((key, index) ∷ rest) acc = best order d rest (
    if same_key (without_process key) d
    then some (prefer order (or_no_default acc) key.process_name index)
    else acc)

find-defaults :
    (order : List Text) (d : ProductKey) (entries : Helper) (lookup : List (ProductKey × Default))
    → find d (defaults order entries lookup) ≡ best order d entries (find d lookup)
unfolding defaults best
find-defaults order d [] lookup = refl
find-defaults order d ((key, index) ∷ rest) lookup =
    elim (Bool-cases (same_key (without_process key) d)) [
      | inl same ↦
          rw same (
            find-defaults order d rest _
            ∙ ap (best order d rest) (put_same (same_key_iff _ d same)))
      | inr other ↦ rw other (
          find-defaults order d rest _
          ∙ ap (best order d rest) (find-put_ne _ d _ lookup (λ e. same_key_ne _ d other (sym e))))
    ]
  where
    put_same :
        without_process key ≡ d
        → find d (
            put
              (without_process key)
              (prefer order
                (or_no_default (find (without_process key) lookup))
                key.process_name
                index)
              lookup)
          ≡ some (prefer order (or_no_default (find d lookup)) key.process_name index)
    put_same e = rw (← e) (find-put_self (without_process key) _ lookup)

defaults-IsSorted :
    (order : List Text) (entries : Helper) (lookup : List (ProductKey × Default))
    → IsSorted lookup
    → IsSorted (defaults order entries lookup)
unfolding defaults
defaults-IsSorted order [] lookup s = s
defaults-IsSorted order ((key, index) ∷ rest) lookup s =
    defaults-IsSorted order rest _ (put-IsSorted (without_process key) _ lookup s)

-- A default where there is one, and else what was there.
abbrev pub choose : Option Default → Option ProductResolverIndex → Option ProductResolverIndex
choose none before = before
choose (some d) before = some d.1

find-put_defaults :
    (k : ProductKey) (defs : List (ProductKey × Default)) (h : Helper)
    → IsSorted defs
    → find k (put_defaults defs h) ≡ choose (find k defs) (find k h)
unfolding put_defaults
find-put_defaults k [] h s = unfold find in refl
find-put_defaults k ((j, d) ∷ rest) h s = elim (Bool-cases (same_key k j)) [
  | inl same ↦ rw (same_key_iff k j same) (find-put_defaults j rest (put j d.1 h) s.1 ∙ here)
  | inr other ↦
      find-put_defaults k rest (put j d.1 h) s.1
      ∙ rw (
        find-put_ne j k d.1 h (same_key_ne k j other),
        find-cons_ne k j d rest (same_key_ne k j other),
      )
]
  where
    here : choose (find j rest) (find j (put j d.1 h)) ≡ choose (find j ((j, d) ∷ rest)) (find j h)
    here = rw (find-Above j rest s.0, find-put_self j d.1 h, find-cons_self j d rest)

pub find-finalize :
    (k : ProductKey) (h : Helper) (order : List Text)
    → find k (finalize h order) ≡ choose (best order k h none) (find k h)
unfolding finalize find
find-finalize k h order =
    find-put_defaults k (defaults order h []) h (defaults-IsSorted order h [] tt)
    ∙ ap (λ c. choose c (find k h)) (find-defaults order k h [])

-- `finalize` keeps the map in order.
put_defaults-IsSorted :
    (defs : List (ProductKey × Default)) (h : Helper) → IsSorted h → IsSorted (put_defaults defs h)
unfolding put_defaults
put_defaults-IsSorted [] h s = s
put_defaults-IsSorted ((j, d) ∷ rest) h s = put_defaults-IsSorted rest _ (put-IsSorted j d.1 h s)

pub finalize-IsSorted : (h : Helper) (order : List Text) → IsSorted h → IsSorted (finalize h order)
unfolding finalize
finalize-IsSorted h order s = put_defaults-IsSorted (defaults order h []) h s

-- A key with a process name has no default.
best_named :
    (order : List Text) (k : ProductKey) (entries : Helper)
    → is_empty k.process_name ≡ false
    → best order k entries none ≡ none
unfolding best
best_named order k [] h = refl
best_named order k ((key, index) ∷ rest) h =
    rw (named (without_process key) refl) (best_named order k rest h)
  where
    named : (j : ProductKey) → is_empty j.process_name ≡ true → same_key j k ≡ false
    named j e = ground (arith, cmp_product_key-eq_iff j k)

-- `finalize` does not change what is found under a key with a process name.
pub get_index-finalize_named :
    (h : Helper) (order : List Text) (k : ProductKey)
    → is_empty k.process_name ≡ false
    → get_index (finalize h order) k ≡ get_index h k
unfolding get_index
get_index-finalize_named h order k named =
    rw (find-finalize k h order, best_named order k h named, get_index) refl
