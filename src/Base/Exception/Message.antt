-- ===== src/Base/Exception/Message.antt =====
-- What happens to the message.
use unify_prototype.Common.{
  ℕ, ◌-◌, ◌%◌, ◌^◌, ◌<◌, ◌≤◌, ◌≡◌, ◌↔◌, ◌≢◌, ◌⊎◌, inl, inr, refl, ap, ◌∙◌, true, [], ◌∷◌, ◌++◌,
  Option, none, some, arith, length, length-append, get_elem?, Bool-cases,
}
use unify_prototype.Base.Exception.Defs.{
  Text, newline, space, is_byte, Exception, of_message, copy, assign, message,
}

prefix_nil : (xs ys : Text) → xs ++ ys ≡ ys → xs ≡ []
prefix_nil [] ys h = refl
prefix_nil (x ∷ xs) ys h = absurd (omega (arith, ap length h, length-append xs ys))

-- `e = other` writes the other message behind the one that is there, and copies all else; so the
-- result is a copy of `other` exactly when `e` had no message.
pub assign_appends :
    (e other : Exception)
    → (assign e other ≡ record other { ost = e.ost ++ other.ost })
      × ((assign e other ≡ copy other) ↔ (message e ≡ []))
unfolding assign copy
assign_appends e other =
    (refl, ((λ h. prefix_nil e.ost other.ost (ap (λ (x : Exception). x.ost) h)), (λ h. rw h refl)))

-- The last byte of a text.
abbrev pub last_byte : Text → Option ℕ
last_byte t = get_elem? t (length t - 1)

get_elem?-length : (t : Text) (c : ℕ) → get_elem? (t ++ c ∷ []) (length t) ≡ some c
get_elem?-length [] c = refl
get_elem?-length (x ∷ t) c = get_elem?-length t c

last_byte-append : (t : Text) (c : ℕ) → last_byte (t ++ c ∷ []) ≡ some c
last_byte-append t c =
    ap (get_elem? (t ++ c ∷ [])) (omega (arith, length-append t (c ∷ []))) ∙ get_elem?-length t c

is_byte-some : (c : ℕ) (o : Option ℕ) → is_byte c o ≡ true → o ≡ some c
is_byte-some c none h = cc
is_byte-some c (some d) h = ground arith

in_range : (n : ℕ) → 0 < n → n ≤ 2 ^ 32 → (n - 1) % 2 ^ 32 ≡ n - 1
in_range n pos small = omega arith

-- A message of at most 2^32 bytes that is given to the constructor is kept, at most a space is put
-- behind it, and it then ends in a newline or a space, so that what is written next stands apart.
pub of_message_stands_apart :
    (c m : Text)
    → m ≢ []
    → length m ≤ 2 ^ 32
    → ((message (of_message c m) ≡ m) ⊎ (message (of_message c m) ≡ m ++ space ∷ []))
      × ((last_byte (message (of_message c m)) ≡ some newline)
          ⊎ (last_byte (message (of_message c m)) ≡ some space))
unfolding of_message
of_message_stands_apart c [] ne small = absurd (ne refl)
of_message_stands_apart c (x ∷ m) ne small =
    rw (in_range (length (x ∷ m)) (omega arith) small)
      (elim (Bool-cases (is_byte newline (last_byte (x ∷ m)))) [
        | inl nl ↦ rw nl (inl refl, inl (is_byte-some newline _ nl))
        | inr no_nl ↦ rw no_nl (elim (Bool-cases (is_byte space (last_byte (x ∷ m)))) [
          | inl sp ↦ rw sp (inl refl, inr (is_byte-some space _ sp))
          | inr no_sp ↦ rw no_sp (inr refl, inr (last_byte-append (x ∷ m) space))
        ])
      ])
