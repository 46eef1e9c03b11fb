-- ===== src/ProductHandling/IndexHelper/Defs.antt =====
-- The helper's one member `keyToIndex_` is the map itself.
use unify_prototype.Common.{
  ℕ, suc, Bool, true, false, List, [], ◌∷◌, Option, none, some, ltb, if◌then◌else◌, length,
}
use unify_prototype.Common.Order.{nat_ord, list_ord, cmp_list}
use unify_prototype.Common.OrderedMap.{find, put}
use unify_prototype.DataModel.Keys.{Text, ProductKey, product_key_ord}
use unify_prototype.DataModel.Index.{ProductResolverIndex, index_of, uninitialized}

abbrev pub Helper : Type 0
Helper = List (ProductKey × ProductResolverIndex)

-- `insert` throws when the key is there already.
pub data Inserted : Type 0 where
  done : Helper → Inserted
  already_exists : ProductKey → Inserted

unfoldable pub insert : Helper → ProductKey → Inserted
insert h key = elim (find key h) [
  | some i ↦ already_exists key
  | none ↦ done (put key (index_of (length h)) h)
]

unfoldable pub get_index : Helper → ProductKey → ProductResolverIndex
get_index h key = elim (find key h) [ some i ↦ i | none ↦ uninitialized ]

-- The key of the same product with no process name.
abbrev pub without_process : ProductKey → ProductKey
without_process key = record key { process_name = [] }

abbrev pub same_text : Text → Text → Bool
same_text s t = elim (cmp_list s t) [ Prim.Native.Nat.Ordering.eq ↦ true | _ ↦ false ]

-- `std::find(begin, end, name)`, as the distance from `begin`; the length if there is none.
unfoldable pub position : Text → List Text → ℕ
position name [] = 0
position name (p ∷ ps) = if same_text p name then 0 else suc (position name ps)

-- An entry of `defaultLookup`: the process name and the index that an empty process name stands for.
abbrev pub Default : Type 0
Default = Text × ProductResolverIndex

-- The default constructor of the pair.
abbrev pub no_default : Default
no_default = ([], uninitialized)

abbrev pub is_empty : Text → Bool
is_empty [] = true
is_empty (c ∷ cs) = false

-- One product against the default so far.
unfoldable pub prefer : List Text → Default → Text → ProductResolverIndex → Default
prefer order (name, best) process index =
    if is_empty name
    then (process, index)
    else (if ltb (position process order) (position name order)
        then (process, index)
        else (name, best))

abbrev pub or_no_default : Option Default → Default
or_no_default none = no_default
or_no_default (some d) = d

-- The first loop of `finalize`, over the entries in the order of their keys.
unfoldable pub defaults :
    List Text → Helper → List (ProductKey × Default) → List (ProductKey × Default)
unfolding prefer
defaults order [] lookup = lookup
defaults order ((key, index) ∷ rest) lookup =
    let new_key = without_process key in
    let prod = or_no_default (find new_key lookup) in
    defaults order rest (put new_key (prefer order prod key.process_name index) lookup)

-- The second loop.
unfoldable pub put_defaults : List (ProductKey × Default) → Helper → Helper
put_defaults [] h = h
put_defaults ((key, d) ∷ rest) h = put_defaults rest (put key d.1 h)

unfoldable pub finalize : Helper → List Text → Helper
unfolding defaults put_defaults
finalize h order = put_defaults (defaults order h []) h
