-- ===== src/ProductHandling/IndexHelper/Earliest.antt =====
-- Which product stands for a key with no process name once `finalize` has run.
use mathlib.Core.Path.{subst}
use unify_prototype.Common.{
  ◌<◌, ◌≤◌, ◌≡◌, ◌⊎◌, inl, inr, refl, sym, ap, ◌∙◌, true, false, List, [], ◌∷◌, Option, none, some,
  arith, Bool-cases, All,
}
use unify_prototype.Common.OrderedMap.{find, IsSorted, Entry, find-Entry, Entry-find}
use unify_prototype.DataModel.Keys.{Text, ProductKey, product_key_ord}
use unify_prototype.DataModel.Index.{ProductResolverIndex}
use unify_prototype.ProductHandling.IndexHelper.Defs.{
  Helper, get_index, without_process, position, Default, is_empty, prefer, finalize,
}
use unify_prototype.ProductHandling.IndexHelper.Finalizing.{
  same_key, same_key_iff, same_key_ne, same_key_self, best, find-finalize,
}

-- Every product has a process name.
abbrev pub Named : Helper → Type 0
Named = All (λ e. is_empty e.0.process_name ≡ false)

-- The choice of the first loop among the entries, starting from a default with a process name.
record Preferred (order : List Text) (d : ProductKey) (entries : Helper) (p : Default)
    : Type 0 where
  chosen : Default
  is_best : best order d entries (some p) ≡ some chosen
  named : is_empty chosen.0 ≡ false
  no_worse : position chosen.0 order ≤ position p.0 order
  from :
      (chosen ≡ p)
      ⊎ ((k : ProductKey) × Entry k chosen.1 entries
          × (without_process k ≡ d)
          × (k.process_name ≡ chosen.0))
  earliest :
      (k : ProductKey) (i : ProductResolverIndex)
      → Entry k i entries
      → without_process k ≡ d
      → position chosen.0 order ≤ position k.process_name order

prefer-cases :
    (order : List Text) (p : Default) (process : Text) (index : ProductResolverIndex)
    → is_empty p.0 ≡ false
    → ((prefer order p process index ≡ (process, index))
        × (position process order < position p.0 order))
      ⊎ ((prefer order p process index ≡ p) × (position p.0 order ≤ position process order))
unfolding prefer
prefer-cases order (name, i) process index h = ground arith

module _ (order : List Text) (d : ProductKey) where
  best-other :
      (key : ProductKey) (index : ProductResolverIndex) (rest : Helper) (acc : Option Default)
      → same_key (without_process key) d ≡ false
      → best order d ((key, index) ∷ rest) acc ≡ best order d rest acc
  unfolding best
  best-other key index rest acc e = rw e refl

  best-same :
      (key : ProductKey) (index : ProductResolverIndex) (rest : Helper) (p : Default)
      → same_key (without_process key) d ≡ true
      → best order d ((key, index) ∷ rest) (some p)
        ≡ best order d rest (some (prefer order p key.process_name index))
  unfolding best
  best-same key index rest p e = rw e refl

  best-first :
      (key : ProductKey) (index : ProductResolverIndex) (rest : Helper)
      → same_key (without_process key) d ≡ true
      → best order d ((key, index) ∷ rest) none ≡ best order d rest (some (key.process_name, index))
  unfolding best prefer
  best-first key index rest e = rw e refl

  Preferred-other :
      (key : ProductKey) (index : ProductResolverIndex) (rest : Helper) (p : Default)
      → same_key (without_process key) d ≡ false
      → Preferred order d rest p
      → Preferred order d ((key, index) ∷ rest) p
  Preferred-other key index rest p e r = record {
    chosen = r.chosen;
    is_best = best-other key index rest (some p) e ∙ r.is_best;
    named = r.named;
    no_worse = r.no_worse;
    from = elim r.from [ inl f ↦ inl f | inr (k, f, g, h) ↦ inr (k, inr f, g, h) ];
    earliest = earliest;
  }
    where
      earliest :
          (k : ProductKey) (i : ProductResolverIndex)
          → Entry k i ((key, index) ∷ rest)
          → without_process k ≡ d
          → position r.chosen.0 order ≤ position k.process_name order
      earliest k i (inl (f, g)) h = absurd (same_key_ne _ d e (ap without_process (sym f) ∙ h))
      earliest k i (inr f) h = r.earliest k i f h

  Preferred-taken :
      (key : ProductKey) (index : ProductResolverIndex) (rest : Helper) (p : Default)
      → same_key (without_process key) d ≡ true
      → prefer order p key.process_name index ≡ (key.process_name, index)
      → position key.process_name order < position p.0 order
      → Preferred order d rest (key.process_name, index)
      → Preferred order d ((key, index) ∷ rest) p
  Preferred-taken key index rest p e q lt r = record {
    chosen = r.chosen;
    is_best = best-same key index rest p e ∙ rw q r.is_best;
    named = r.named;
    no_worse = omega (arith, r.no_worse);
    from = elim r.from [
      | inl f ↦ inr (
        key,
        inl (refl, ap (λ (c : Default). c.1) f),
        same_key_iff _ d e,
        ap (λ (c : Default). c.0) (sym f),
      )
      | inr (k, f, g, h) ↦ inr (k, inr f, g, h)
    ];
    earliest = earliest;
  }
    where
      earliest :
          (k : ProductKey) (i : ProductResolverIndex)
          → Entry k i ((key, index) ∷ rest)
          → without_process k ≡ d
          → position r.chosen.0 order ≤ position k.process_name order
      earliest k i (inl (f, g)) h = rw f r.no_worse
      earliest k i (inr f) h = r.earliest k i f h

  Preferred-left :
      (key : ProductKey) (index : ProductResolverIndex) (rest : Helper) (p : Default)
      → same_key (without_process key) d ≡ true
      → prefer order p key.process_name index ≡ p
      → position p.0 order ≤ position key.process_name order
      → Preferred order d rest p
      → Preferred order d ((key, index) ∷ rest) p
  Preferred-left key index rest p e q le r = record {
    chosen = r.chosen;
    is_best = best-same key index rest p e ∙ rw q r.is_best;
    named = r.named;
    no_worse = r.no_worse;
    from = elim r.from [ inl f ↦ inl f | inr (k, f, g, h) ↦ inr (k, inr f, g, h) ];
    earliest = earliest;
  }
    where
      earliest :
          (k : ProductKey) (i : ProductResolverIndex)
          → Entry k i ((key, index) ∷ rest)
          → without_process k ≡ d
          → position r.chosen.0 order ≤ position k.process_name order
      earliest k i (inl (f, g)) h = rw f (omega (arith, r.no_worse, le))
      earliest k i (inr f) h = r.earliest k i f h

  preferred :
      (entries : Helper) (p : Default)
      → Named entries
      → is_empty p.0 ≡ false
      → Preferred order d entries p
  preferred [] p all named = record {
    chosen = p;
    is_best = unfold best in refl;
    named = named;
    no_worse = omega arith;
    from = inl refl;
    earliest = λ k i e h. absurd e;
  }
  preferred ((key, index) ∷ rest) p all named =
      elim (Bool-cases (same_key (without_process key) d)) [
        | inl same ↦ elim (prefer-cases order p key.process_name index named) [
          | inl (q, lt) ↦
              Preferred-taken key index rest p same q lt
                (preferred rest (key.process_name, index) all.1 all.0)
          | inr (q, le) ↦ Preferred-left key index rest p same q le (preferred rest p all.1 named)
        ]
        | inr other ↦ Preferred-other key index rest p other (preferred rest p all.1 named)
      ]

  -- The choice of the first loop, from no default.
  record Found (entries : Helper) : Type 0 where
    chosen : Default
    is_best : best order d entries none ≡ some chosen
    key : ProductKey
    entry : Entry key chosen.1 entries
    same : without_process key ≡ d
    named : key.process_name ≡ chosen.0
    earliest :
        (k : ProductKey) (i : ProductResolverIndex)
        → Entry k i entries
        → without_process k ≡ d
        → position key.process_name order ≤ position k.process_name order

  Found-first :
      (key : ProductKey) (index : ProductResolverIndex) (rest : Helper)
      → same_key (without_process key) d ≡ true
      → Preferred order d rest (key.process_name, index)
      → Found ((key, index) ∷ rest)
  Found-first key index rest e r = elim r.from [
    | inl f ↦ record {
      chosen = r.chosen;
      is_best = best-first key index rest e ∙ r.is_best;
      key = key;
      entry = inl (refl, ap (λ (c : Default). c.1) f);
      same = same_key_iff _ d e;
      named = ap (λ (c : Default). c.0) (sym f);
      earliest = λ k i en w.
          subst (λ t. position t order ≤ position k.process_name order)
            (ap (λ (c : Default). c.0) f) (least k i en w);
    }
    | inr (k, f, g, h) ↦ record {
      chosen = r.chosen;
      is_best = best-first key index rest e ∙ r.is_best;
      key = k;
      entry = inr f;
      same = g;
      named = h;
      earliest = λ j i en w.
          subst (λ t. position t order ≤ position j.process_name order) (sym h) (least j i en w);
    }
  ]
    where
      least :
          (k : ProductKey) (i : ProductResolverIndex)
          → Entry k i ((key, index) ∷ rest)
          → without_process k ≡ d
          → position r.chosen.0 order ≤ position k.process_name order
      least k i (inl (f, g)) h = rw f r.no_worse
      least k i (inr f) h = r.earliest k i f h

  Found-other :
      (key : ProductKey) (index : ProductResolverIndex) (rest : Helper)
      → same_key (without_process key) d ≡ false
      → Found rest
      → Found ((key, index) ∷ rest)
  Found-other key index rest e r = record {
    chosen = r.chosen;
    is_best = best-other key index rest none e ∙ r.is_best;
    key = r.key;
    entry = inr r.entry;
    same = r.same;
    named = r.named;
    earliest = earliest;
  }
    where
      earliest :
          (k : ProductKey) (i : ProductResolverIndex)
          → Entry k i ((key, index) ∷ rest)
          → without_process k ≡ d
          → position r.key.process_name order ≤ position k.process_name order
      earliest k i (inl (f, g)) h = absurd (same_key_ne _ d e (ap without_process (sym f) ∙ h))
      earliest k i (inr f) h = r.earliest k i f h

  found :
      (entries : Helper) (key : ProductKey) (index : ProductResolverIndex)
      → Named entries
      → Entry key index entries
      → without_process key ≡ d
      → Found entries
  found [] key index all en same = elim en [ ]
  found ((k, i) ∷ rest) key index all (inl (f, g)) same =
      Found-first k i rest (rw (ap without_process (sym f) ∙ same) (same_key_self d))
        (preferred rest (k.process_name, i) all.1 all.0)
  found ((k, i) ∷ rest) key index all (inr en) same =
      elim (Bool-cases (same_key (without_process k) d)) [
        | inl here ↦ Found-first k i rest here (preferred rest (k.process_name, i) all.1 all.0)
        | inr other ↦ Found-other k i rest other (found rest key index all.1 en same)
      ]

-- Where every product has a process name, `finalize` makes the key with an empty process name
-- stand for a product with the same type and labels whose process comes earliest in the given
-- order (processes that the order does not name come last).
pub finalize_earliest :
    (h : Helper) (order : List Text) (key : ProductKey) (index : ProductResolverIndex)
    → IsSorted h
    → Named h
    → find key h ≡ some index
    → (chosen : ProductKey) × (find chosen h
        ≡ some (get_index (finalize h order) (without_process key)))
      × (without_process chosen ≡ without_process key)
      × ((k : ProductKey) (i : ProductResolverIndex)
          → find k h ≡ some i
          → without_process k ≡ without_process key
          → position chosen.process_name order ≤ position k.process_name order)
unfolding get_index
finalize_earliest h order key index s named e = (
  f.key,
  rw (find-finalize (without_process key) h order, f.is_best, get_index)
      (Entry-find f.key f.chosen.1 h s f.entry),
  f.same,
  (λ k i q same. f.earliest k i (find-Entry k i h q) same),
)
  where
    f : Found order (without_process key) h
    f = found order (without_process key) h key index named (find-Entry key index h e) refl
