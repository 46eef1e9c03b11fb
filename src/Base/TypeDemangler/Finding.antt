-- ===== src/Base/TypeDemangler/Finding.antt =====
-- `find`: what it finds is there, and what it does not find is nowhere.
use unify_prototype.Common.{
  ℕ, ◌≡◌, ◌≢◌, refl, sym, ap, ◌∙◌, inl, inr, [], ◌∷◌, ◌++◌, Option, none, some, arith, Option-cases,
}
use unify_prototype.Base.Exception.Defs.{Text}
use unify_prototype.Base.TypeDemangler.Defs.{after_prefix, further, find}

pub after_prefix-some :
    (from name post : Text) → after_prefix from name ≡ some post → name ≡ from ++ post
unfolding after_prefix
after_prefix-some [] name post e = ground arith
after_prefix-some (c ∷ cs) [] post e = cc
after_prefix-some (c ∷ cs) (d ∷ name) post e = ground (arith, after_prefix-some cs name post)

pub after_prefix-append : (from post : Text) → after_prefix from (from ++ post) ≡ some post
unfolding after_prefix
after_prefix-append [] post = refl
after_prefix-append (c ∷ cs) post = ground (arith, after_prefix-append cs post)

further-some :
    (c : ℕ) (o : Option (Text × Text)) (pre post : Text)
    → further c o ≡ some (pre, post)
    → (p : Text) × (pre ≡ c ∷ p) × (o ≡ some (p, post))
further-some c none pre post e = cc
further-some c (some (p, q)) pre post e = (p, cc, cc)

further-none : (c : ℕ) (o : Option (Text × Text)) → further c o ≡ none → o ≡ none
further-none c none e = refl
further-none c (some (p, q)) e = cc

pub find-here :
    (from name post : Text) → after_prefix from name ≡ some post → find from name ≡ some ([], post)
unfolding find
find-here from [] post e = rw (e, find) refl
find-here from (c ∷ name) post e = rw (e, find) refl

find-nil_none : (from : Text) → after_prefix from [] ≡ none → find from [] ≡ none
unfolding find
find-nil_none from e = rw (e, find) refl

found_here :
    (from name pre post p : Text)
    → after_prefix from name ≡ some p
    → find from name ≡ some (pre, post)
    → name ≡ pre ++ (from ++ post)
found_here from name pre post p s e =
    let here = find-here from name p s in
    let a : pre ≡ [] = cc in let b : post ≡ p = cc in rw (a, b) (after_prefix-some from name p s)

not_here : (from name post : Text) → find from name ≡ none → name ≢ from ++ post
not_here from name post e q =
    let here =
      find-here from name post (ap (after_prefix from) q ∙ after_prefix-append from post) in
    cc

pub find-cons_later :
    (from : Text) (c : ℕ) (name : Text)
    → after_prefix from (c ∷ name) ≡ none
    → find from (c ∷ name) ≡ further c (find from name)
unfolding find
find-cons_later from c name e = rw (e, find) refl

pub find-some :
    (from name pre post : Text) → find from name ≡ some (pre, post) → name ≡ pre ++ (from ++ post)
unfolding find
find-some from [] pre post e = elim (Option-cases (after_prefix from [])) [
  | inl n ↦ let n2 = find-nil_none from n in cc
  | inr (p, s) ↦ found_here from [] pre post p s e
]
find-some from (c ∷ name) pre post e = elim (Option-cases (after_prefix from (c ∷ name))) [
  | inl n ↦
      let (p, q, r) =
        further-some c (find from name) pre post (sym (find-cons_later from c name n) ∙ e) in
      ap (λ l. c ∷ l) (find-some from name p post r) ∙ ap (λ l. l ++ (from ++ post)) (sym q)
  | inr (p, s) ↦ found_here from (c ∷ name) pre post p s e
]

pub find-none : (from name pre post : Text) → find from name ≡ none → name ≢ pre ++ (from ++ post)
unfolding find
find-none from [] [] post e q = not_here from [] post e q
find-none from [] (x ∷ pre) post e q = cc
find-none from (c ∷ name) [] post e q = not_here from (c ∷ name) post e q
find-none from (c ∷ name) (x ∷ pre) post e q = elim (Option-cases (after_prefix from (c ∷ name))) [
  | inl n ↦
      find-none from name pre post
        (further-none c (find from name) (sym (find-cons_later from c name n) ∙ e)) (cc)
  | inr (p, s) ↦ let here = find-here from (c ∷ name) p s in cc
]

pub find-nil : (from : Text) → from ≢ [] → find from [] ≡ none
unfolding find after_prefix
find-nil [] ne = absurd (ne refl)
find-nil (c ∷ from) ne = refl
