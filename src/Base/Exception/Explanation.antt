-- ===== src/Base/Exception/Explanation.antt =====
-- What `explainSelf` prints.
use unify_prototype.Common.{
  is_empty, ℕ, zero, suc, ◌+◌, ◌-◌, ◌*◌, ◌/◌, ◌%◌, ◌<◌, ◌≤◌, ◌≡◌, ◌⊎◌, inl, inr, refl, ap, sym, ◌∙◌,
  true, false, List, [], ◌∷◌, ◌++◌, append-nil, append_assoc, arith, length, get_elem?, Bool-cases,
  All, ltb,
}
use mathlib.Core.List.{reverse, reverse-append}
use unify_prototype.Base.Exception.Defs.{
  Text, bytes, newline, is_byte, Exception, digits_of, decimal, context_lines, info_lines,
  explain_category, explain_message, explain_info, explain_self, add_context,
}

-- A text that ends in a newline.
abbrev pub Ends : Text → Type 0
Ends t = (front : Text) × (t ≡ front ++ newline ∷ [])

Ends-append : (xs ys : Text) → Ends ys → Ends (xs ++ ys)
Ends-append xs ys (front, e) = (xs ++ front, rw e (simp append_assoc))

Ends-cons : (x : ℕ) (ys : Text) → Ends ys → Ends (x ∷ ys)
Ends-cons x ys (front, e) = (x ∷ front, ap (◌∷◌ x) e)

Ends-context_lines : (n : ℕ) (cs : List Text) → Ends (newline ∷ context_lines n cs)
unfolding context_lines
Ends-context_lines n [] = ([], refl)
Ends-context_lines n (c ∷ cs) = Ends-cons newline _ (
    Ends-append (bytes "   [") _ (
      Ends-append (decimal n) _
        (Ends-append (bytes "] ") _ (Ends-append c _ (Ends-context_lines (n + 1) cs)))))

Ends-info_lines : (c : ℕ) (is : List Text) → Ends (newline ∷ info_lines c is)
unfolding info_lines
Ends-info_lines c [] = ([], refl)
Ends-info_lines c (i ∷ is) = Ends-cons newline _ (
    Ends-append (bytes "      [") _ (
      Ends-cons c _
        (Ends-append (bytes "] ") _ (Ends-append i _ (Ends-info_lines ((c + 1) % 256) is)))))

Ends-explain_category : (e : Exception) → Ends (explain_category e)
unfolding explain_category
Ends-explain_category e = Ends-append (bytes "An exception of category '") _ (
    Ends-append e.category _ (elim (Bool-cases (is_empty e.context)) [
      | inl none_given ↦ rw none_given (bytes "' occurred.", refl)
      | inr given ↦ rw given (Ends-append (bytes "' occurred while") _ (Ends-context_lines 0 _))
    ]))

-- Nothing, or a text that ends in a newline.
abbrev Lines : Text → Type 0
Lines t = (t ≡ []) ⊎ Ends t

Lines-explain_info : (is : List Text) → Lines (explain_info is)
unfolding explain_info
Lines-explain_info [] = inl refl
Lines-explain_info (i ∷ is) =
    inr (Ends-append (bytes "   Additional Info:") _ (Ends-info_lines b'a' _))

last-cons :
    (x y : ℕ) (t : Text)
    → get_elem? (x ∷ y ∷ t) (length (x ∷ y ∷ t) - 1) ≡ get_elem? (y ∷ t) (length (y ∷ t) - 1)
last-cons x y t =
    ap (get_elem? (x ∷ y ∷ t)) {y = suc (length t)} (omega arith)
    ∙ ap (get_elem? (y ∷ t)) {x = length t} (omega arith)

last-Ends : (t : Text) → is_byte newline (get_elem? t (length t - 1)) ≡ true → Ends t
last-Ends [] h = cc
last-Ends (x ∷ []) h = ([], ground arith)
last-Ends (x ∷ y ∷ t) h =
    Ends-cons x (y ∷ t)
      (last-Ends (y ∷ t) (sym (ap (λ o. is_byte newline o) (last-cons x y t)) ∙ h))

Lines-explain_message : (m : Text) → Lines (explain_message m)
unfolding explain_message
Lines-explain_message [] = inl refl
Lines-explain_message (x ∷ m) = inr (
    Ends-append (bytes "Exception Message:") _ (
      Ends-cons newline _
        (elim (Bool-cases (is_byte newline (get_elem? (x ∷ m) (length (x ∷ m) - 1)))) [
          | inl ended ↦ rw ended (rw append-nil (last-Ends (x ∷ m) ended))
          | inr unended ↦ rw unended (x ∷ m, refl)
        ])))

Ends-Lines : (xs ys : Text) → Ends xs → Lines ys → Ends (xs ++ ys)
Ends-Lines xs ys h (inl e) = rw (e, append-nil) h
Ends-Lines xs ys h (inr e) = Ends-append xs ys e

-- The explanation ends in a newline, whatever the message, the contexts and the additional
-- information are.
pub explain_self-Ends : (e : Exception) → Ends (explain_self e)
unfolding explain_self
explain_self-Ends e = rw (← append_assoc) (
    Ends-Lines (explain_category e ++ explain_message e.ost) (explain_info e.additional_info)
      (Ends-Lines (explain_category e) (explain_message e.ost) (Ends-explain_category e)
        (Lines-explain_message e.ost))
      (Lines-explain_info e.additional_info))

is_empty-snoc : (cs : List Text) (c : Text) → is_empty (cs ++ c ∷ []) ≡ false
is_empty-snoc [] c = refl
is_empty-snoc (x ∷ cs) c = refl

-- The context that was added last is printed first, as number 0, and those before it keep their
-- order and are counted from 1.
pub newest_context_first :
    (e : Exception) (c : Text)
    → explain_self (add_context e c)
      ≡ bytes "An exception of category '"
        ++ (e.category
            ++ (bytes "' occurred while\n   [0] "
                ++ (c ++ (newline ∷ context_lines 1 (reverse e.context)))))
        ++ (explain_message e.ost ++ explain_info e.additional_info)
unfolding explain_self explain_category add_context context_lines decimal
newest_context_first e c = rw (reverse-append e.context (c ∷ []), is_empty-snoc e.context c) refl

-- A decimal read from its most significant digit.
abbrev pub read_from : ℕ → Text → ℕ
read_from acc [] = acc
read_from acc (d ∷ ds) = read_from (acc * 10 + (d - b'0')) ds

abbrev pub IsDigit : ℕ → Type 0
IsDigit d = (b'0' ≤ d) × (d ≤ b'9')

read_from-append :
    (acc : ℕ) (xs ys : Text) → read_from acc (xs ++ ys) ≡ read_from (read_from acc xs) ys
read_from-append acc [] ys = refl
read_from-append acc (x ∷ xs) ys = read_from-append (acc * 10 + (x - b'0')) xs ys

All-snoc : (xs : Text) (d : ℕ) → All IsDigit xs → IsDigit d → All IsDigit (xs ++ d ∷ [])
All-snoc [] d a h = (h, tt)
All-snoc (x ∷ xs) d a h = (a.0, All-snoc xs d a.1 h)

digits_of_lem :
    (fuel n : ℕ) → n < fuel → (read_from 0 (digits_of fuel n) ≡ n) × All IsDigit (digits_of fuel n)
unfolding digits_of
digits_of_lem zero n h = absurd (omega arith)
digits_of_lem (suc fuel) n h = elim (Bool-cases (ltb n 10)) [
  | inl small ↦
      let below : n < 10 = ground arith in rw small (omega arith, ((omega arith, omega arith), tt))
  | inr large ↦
      let ih = digits_of_lem fuel (n / 10) (ground arith) in
      rw large (
        read_from-append 0 (digits_of fuel (n / 10)) ((n % 10 + b'0') ∷ [])
            ∙ ap (λ v. v * 10 + (n % 10 + b'0' - b'0')) ih.0
            ∙ omega arith,
        All-snoc _ _ ih.1 (omega arith, omega arith),
      )
]

-- The number of a context is printed in decimal digits that read back as the number.
pub decimal_reads_back : (n : ℕ) → (read_from 0 (decimal n) ≡ n) × All IsDigit (decimal n)
unfolding decimal
decimal_reads_back n = digits_of_lem (suc n) n (omega arith)
