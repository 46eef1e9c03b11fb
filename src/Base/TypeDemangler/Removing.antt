-- ===== src/Base/TypeDemangler/Removing.antt =====
-- `removeParameter` ends, or hangs at a parameter that is never closed.
use unify_prototype.Common.{
  ℕ, zero, suc, ◌+◌, ◌-◌, ◌<◌, ◌≤◌, ◌≡◌, ◌≢◌, ◌⊎◌, refl, ap, ◌∙◌, inl, inr, [], ◌∷◌, ◌++◌, Option,
  none, some, arith, length, length-append, Option-cases,
}
use unify_prototype.Base.Exception.Defs.{Text}
use unify_prototype.Base.TypeDemangler.Defs.{
  find, after_closing, without_space, remove_round, repeat, remove_parameter,
}
use unify_prototype.Base.TypeDemangler.Finding.{find-some}

pub repeat-end :
    (round : Text → Option Text) (fuel : ℕ) (name : Text)
    → round name ≡ none
    → repeat round (suc fuel) name ≡ some name
unfolding repeat
repeat-end round fuel name e = rw (e, repeat) refl

pub repeat-next :
    (round : Text → Option Text) (fuel : ℕ) (name next : Text)
    → round name ≡ some next
    → repeat round (suc fuel) name ≡ repeat round fuel next
unfolding repeat
repeat-next round fuel name next e = rw (e, repeat) refl

-- A round that changes nothing never ends.
pub repeat-stuck :
    (round : Text → Option Text) (fuel : ℕ) (name : Text)
    → round name ≡ some name
    → repeat round fuel name ≡ none
unfolding repeat
repeat-stuck round zero name e = refl
repeat-stuck round (suc fuel) name e =
    repeat-next round fuel name name e ∙ repeat-stuck round fuel name e

after_closing-le :
    (depth : ℕ) (name tail : Text)
    → after_closing depth name ≡ some tail
    → length tail ≤ length name
unfolding after_closing
after_closing-le depth [] tail e = cc
after_closing-le depth (c ∷ cs) tail e = ground (
  arith,
  after_closing-le (depth + 1) cs tail,
  after_closing-le (depth - 1) cs tail,
  after_closing-le depth cs tail,
)

without_space-le : (pre tail : Text) → length (without_space pre tail) ≤ length tail
unfolding without_space
without_space-le pre [] = omega arith
without_space-le pre (c ∷ cs) = ground arith

-- An occurrence of the text that is never closed.
pub record Unclosed (to_remove name : Text) : Type 0 where
  pub pre : Text
  pub post : Text
  pub found : find to_remove name ≡ some (pre, post)
  pub never_closed : after_closing 1 post ≡ none

-- What rounds make of the name.
pub data Rounds (to_remove : Text) : Text → Text → Type 0 where
  none_yet : {name : Text} → Rounds to_remove name name
  first_round :
      {name next last : Text}
      → remove_round to_remove name ≡ some next
      → Rounds to_remove next last
      → Rounds to_remove name last

length-pos : (t : Text) → t ≢ [] → 0 < length t
length-pos [] ne = absurd (ne refl)
length-pos (c ∷ t) ne = omega arith

-- What a round does.
data Round (to_remove name : Text) : Type 0 where
  ends : find to_remove name ≡ none → remove_round to_remove name ≡ none → Round to_remove name
  hangs : Unclosed to_remove name → remove_round to_remove name ≡ some name → Round to_remove name
  shortens :
      (next : Text)
      → remove_round to_remove name ≡ some next
      → length next < length name
      → Round to_remove name

Round-cases : (to_remove name : Text) → to_remove ≢ [] → Round to_remove name
unfolding remove_round
Round-cases to_remove name ne = elim (Option-cases (find to_remove name)) [
  | inl e ↦ ends e (rw (e, remove_round) refl)
  | inr ((pre, post), e) ↦ elim (Option-cases (after_closing 1 post)) [
    | inl k ↦
        hangs (record { pre = pre; post = post; found = e; never_closed = k })
          (rw (e, remove_round) (rw k refl))
    | inr (tail, k) ↦ shortens (pre ++ without_space pre tail) (rw (e, remove_round) (rw k refl)) (
        omega (
          arith,
          ap length (find-some to_remove name pre post e),
          length-append pre (to_remove ++ post),
          length-append to_remove post,
          length-append pre (without_space pre tail),
          without_space-le pre tail,
          after_closing-le 1 post tail k,
          length-pos to_remove ne,
        ))
  ]
]

-- How the loop goes on, for any fuel that is large enough.
abbrev Goes : Text → Text → ℕ → Type 0
Goes to_remove name bound =
    ((r : Text) × Rounds to_remove name r
      × (find to_remove r ≡ none)
      × ((fuel : ℕ) → bound ≤ fuel → remove_parameter fuel name to_remove ≡ some r))
    ⊎ ((stuck : Text) × Rounds to_remove name stuck
        × Unclosed to_remove stuck
        × ((fuel : ℕ) → remove_parameter fuel name to_remove ≡ none))

ends-Goes :
    (to_remove name : Text) (bound : ℕ)
    → find to_remove name ≡ none
    → remove_round to_remove name ≡ none
    → Goes to_remove name (suc bound)
unfolding remove_parameter
ends-Goes to_remove name bound out e = inl (name, none_yet, out, go)
  where
    go : (fuel : ℕ) → suc bound ≤ fuel → repeat (remove_round to_remove) fuel name ≡ some name
    go zero le = absurd (omega arith)
    go (suc fuel) le = repeat-end (remove_round to_remove) fuel name e

shortens-Goes :
    (to_remove name next : Text) (bound : ℕ)
    → remove_round to_remove name ≡ some next
    → Goes to_remove next bound
    → Goes to_remove name (suc bound)
unfolding remove_parameter
shortens-Goes to_remove name next bound e (inl (r, rs, out, h)) = inl (r, first_round e rs, out, go)
  where
    go : (fuel : ℕ) → suc bound ≤ fuel → repeat (remove_round to_remove) fuel name ≡ some r
    go zero le = absurd (omega arith)
    go (suc fuel) le = repeat-next (remove_round to_remove) fuel name next e ∙ h fuel (omega arith)
shortens-Goes to_remove name next bound e (inr (stuck, rs, u, h)) =
    inr (stuck, first_round e rs, u, go)
  where
    go : (fuel : ℕ) → repeat (remove_round to_remove) fuel name ≡ none
    go zero = unfold repeat in refl
    go (suc fuel) = repeat-next (remove_round to_remove) fuel name next e ∙ h fuel

hangs-Goes :
    (to_remove name : Text) (bound : ℕ)
    → Unclosed to_remove name
    → remove_round to_remove name ≡ some name
    → Goes to_remove name bound
unfolding remove_parameter
hangs-Goes to_remove name bound u e =
    inr (name, none_yet, u, λ fuel. repeat-stuck (remove_round to_remove) fuel name e)

goes :
    (bound : ℕ) (to_remove name : Text)
    → to_remove ≢ []
    → length name < bound
    → Goes to_remove name bound
goes zero to_remove name ne lt = absurd (omega arith)
goes (suc bound) to_remove name ne lt = elim (Round-cases to_remove name ne) [
  | ends out e ↦ ends-Goes to_remove name bound out e
  | hangs u e ↦ hangs-Goes to_remove name (suc bound) u e
  | shortens next e less ↦
      shortens-Goes to_remove name next bound e (goes bound to_remove next ne (omega arith))
]

-- `removeParameter` either ends, within as many rounds as the name is long and one more, with what
-- rounds make of the name, in which the text to remove does not occur; or it never ends, because
-- rounds make of the name one in which the parameter that the text opens is not closed. The text to
-- remove is not empty.
pub remove_parameter-ends_or_hangs :
    (to_remove name : Text)
    → to_remove ≢ []
    → ((r : Text) × Rounds to_remove name r
        × (find to_remove r ≡ none)
        × ((fuel : ℕ) → length name + 1 ≤ fuel → remove_parameter fuel name to_remove ≡ some r))
      ⊎ ((stuck : Text) × Rounds to_remove name stuck
          × Unclosed to_remove stuck
          × ((fuel : ℕ) → remove_parameter fuel name to_remove ≡ none))
remove_parameter-ends_or_hangs to_remove name ne =
    goes (length name + 1) to_remove name ne (omega arith)
