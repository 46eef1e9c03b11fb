-- ===== src/Base/TypeDemangler/Replacing.antt =====
-- `replaceString` ends.
use unify_prototype.Common.{
  ℕ, zero, suc, ◌<◌, ◌≤◌, ◌≡◌, ◌≢◌, refl, sym, ap, ◌∙◌, inl, inr, [], ◌∷◌, ◌++◌, none, some, arith,
  length, length-append, Option-cases, append_assoc,
}
use unify_prototype.Base.Exception.Defs.{Text}
use unify_prototype.Base.TypeDemangler.Defs.{find, replace_loop, replace_string}
use unify_prototype.Base.TypeDemangler.Finding.{find-some, find-none, find-nil}
use native.Mathlib.Decide.{dec_lt}

-- Two ways to cut a text, of which the second leaves the shorter end.
append-split :
    (xs ys us vs : Text)
    → xs ++ ys ≡ us ++ vs
    → length vs ≤ length ys
    → (z : Text) × (us ≡ xs ++ z) × (ys ≡ z ++ vs)
append-split [] ys us vs e le = (us, refl, e)
append-split (x ∷ xs) ys [] vs e le = absurd (omega (arith, ap length e, length-append xs ys))
append-split (x ∷ xs) ys (u ∷ us) vs e le =
    let (z, p, q) = append-split xs ys us vs (cc) le in
    (z, (let h : x ≡ u = cc in rw (h, p) refl), q)

-- An occurrence in `seen ++ fresh` that is not within `seen` reaches into `fresh`.
reaches_fresh :
    (from seen fresh pre post : Text)
    → find from seen ≡ none
    → find from (seen ++ fresh) ≡ some (pre, post)
    → length post < length fresh
reaches_fresh from seen fresh pre post clean e = elim (dec_lt (length post) (length fresh)) [
  | yes lt ↦ lt
  | no ge ↦
      let (z, p, q) =
        append-split (pre ++ from) post seen fresh
          (append_assoc pre from post ∙ sym (find-some from (seen ++ fresh) pre post e))
          (omega arith) in
      absurd (find-none from seen pre z clean (p ∙ append_assoc pre from z))
]

replace_loop-ends :
    (fuel : ℕ) (from to done seen fresh : Text)
    → from ≢ []
    → find from to ≡ none
    → find from seen ≡ none
    → length fresh < fuel
    → (r : Text) × (replace_loop fuel from to done (seen ++ fresh) ≡ some r)
unfolding replace_loop
replace_loop-ends zero from to done seen fresh ne out clean lt = absurd (omega arith)
replace_loop-ends (suc fuel) from to done seen fresh ne out clean lt =
    elim (Option-cases (find from (seen ++ fresh))) [
      | inl e ↦ (done ++ (seen ++ fresh), rw (e, replace_loop) refl)
      | inr ((pre, post), e) ↦
          let (r, q) =
            replace_loop-ends fuel from to (done ++ pre) to post ne out out
              (omega (arith, reaches_fresh from seen fresh pre post clean e)) in
          (r, rw (e, replace_loop) q)
    ]

replace_loop-none :
    (fuel : ℕ) (from to done rest : Text)
    → find from rest ≡ none
    → replace_loop (suc fuel) from to done rest ≡ some (done ++ rest)
unfolding replace_loop
replace_loop-none fuel from to done rest e = rw (e, replace_loop) refl

-- `replaceString` ends whatever the name is, within as many rounds as the name is long and one
-- more, if the text to replace is not empty and, as its comment asks, does not occur in the text that
-- is put in; and it leaves a name alone in which the text to replace does not occur.
pub replace_string-ends :
    (name from to : Text) (fuel : ℕ)
    → from ≢ []
    → find from to ≡ none
    → length name < fuel
    → (r : Text) × (replace_string fuel name from to ≡ some r) × (find from name ≡ none → r ≡ name)
unfolding replace_string
replace_string-ends name from to zero ne out lt = absurd (omega arith)
replace_string-ends name from to (suc fuel) ne out lt =
    let (r, e) = replace_loop-ends (suc fuel) from to [] [] name ne out (find-nil from ne) lt in
    (r, e, λ h. let same = replace_loop-none fuel from to [] name h in cc)
