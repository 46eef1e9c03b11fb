-- ===== src/Base/TypeDemangler/Moving.antt =====
-- `constBeforeIdentifier` hangs at a doubled qualifier.
use mathlib.Core.List.{reverse, reverse-append, reverse-reverse}
use unify_prototype.Common.{
  ℕ, ◌≡◌, ◌≢◌, refl, sym, ap, ◌∙◌, [], ◌∷◌, ◌++◌, none, some, arith, All, append_assoc,
}
use unify_prototype.Base.Exception.Defs.{Text, bytes, space}
use unify_prototype.Base.TypeDemangler.Defs.{
  after_prefix, further, find, insert_const, const_round, const_before_identifier,
}
use unify_prototype.Base.TypeDemangler.Finding.{find-cons_later}
use unify_prototype.Base.TypeDemangler.Removing.{repeat-stuck}

not_prefix : (c : ℕ) (name : Text) → c ≢ space → after_prefix (bytes " const") (c ∷ name) ≡ none
unfolding after_prefix
not_prefix c name ne = ground arith

-- No space in front: the first occurrence is the one behind it.
find-front :
    (front name pre post : Text)
    → All (λ c. c ≢ space) front
    → find (bytes " const") name ≡ some (pre, post)
    → find (bytes " const") (front ++ name) ≡ some (front ++ pre, post)
find-front [] name pre post h e = e
find-front (c ∷ front) name pre post h e =
    find-cons_later (bytes " const") c (front ++ name) (not_prefix c (front ++ name) h.0)
    ∙ ap (further c) (find-front front name pre post h.1 e)

find-doubled :
    (x : ℕ) (rest : Text)
    → x ≢ space
    → find (bytes " const") (x ∷ (bytes "<const const " ++ rest))
      ≡ some (x ∷ bytes "<const", space ∷ rest)
unfolding find after_prefix
find-doubled x rest ne =
    find-cons_later (bytes " const") x (bytes "<const const " ++ rest)
      (not_prefix x (bytes "<const const " ++ rest) ne)
    ∙ refl

insert-doubled :
    (front : Text) (x : ℕ) (rest : Text)
    → insert_const 0 (reverse (front ++ (x ∷ bytes "<const"))) (space ∷ rest)
      ≡ some (
          reverse (b'<' ∷ (x ∷ reverse front))
          ++ (bytes "const " ++ (bytes "const" ++ (space ∷ rest))))
unfolding insert_const
insert-doubled front x rest = rw (reverse-append front (x ∷ bytes "<const")) refl

back : (front : Text) (x : ℕ) → reverse (b'<' ∷ (x ∷ reverse front)) ≡ front ++ (x ∷ b'<' ∷ [])
back front x =
    ap reverse (sym (reverse-append front (x ∷ b'<' ∷ [])))
    ∙ reverse-reverse (front ++ (x ∷ b'<' ∷ []))

const_round-doubled :
    (front : Text) (x : ℕ) (rest : Text)
    → All (λ c. c ≢ space) front
    → x ≢ space
    → const_round (front ++ (x ∷ (bytes "<const const " ++ rest)))
      ≡ some (front ++ (x ∷ (bytes "<const const " ++ rest)))
unfolding const_round
const_round-doubled front x rest h ne =
    rw
      (
        find-front front (x ∷ (bytes "<const const " ++ rest)) (x ∷ bytes "<const") (space ∷ rest) h
            (find-doubled x rest ne),
        const_round,
        insert-doubled front x rest,
      )
      (ap (λ l. some (l ++ (bytes "const const " ++ rest))) (back front x)
        ∙ ap some (append_assoc front (x ∷ b'<' ∷ []) (bytes "const const " ++ rest)))

-- `constBeforeIdentifier` never ends on a name in which a first parameter has the qualifier twice
-- in front, `x<const const …`, where nothing but the opening bracket and one or more bytes without a
-- space stand before it.
pub doubled_const_hangs :
    (front : Text) (x : ℕ) (rest : Text) (fuel : ℕ)
    → All (λ c. c ≢ space) front
    → x ≢ space
    → const_before_identifier fuel (front ++ (x ∷ (bytes "<const const " ++ rest))) ≡ none
unfolding const_before_identifier
doubled_const_hangs front x rest fuel h ne =
    repeat-stuck const_round fuel _ (const_round-doubled front x rest h ne)
