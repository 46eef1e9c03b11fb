-- ===== src/Base/TypeDemangler/Defs.antt =====
-- The loops on a name, with fuel: `none` means that the fuel ran out, and a name is the list of its
-- bytes.
use mathlib.Core.List.{reverse}
use unify_prototype.Common.{
  is_empty, ◌>>=◌, ℕ, zero, suc, ◌+◌, ◌-◌, Bool, true, false, not, ◌&&◌, ◌||◌, [], ◌∷◌, ◌++◌,
  Option, none, some, ◌==◌, if◌then◌else◌,
}
use unify_prototype.Base.Exception.Defs.{Text, bytes, space}

-- What follows a text at the front of a name.
unfoldable pub after_prefix : Text → Text → Option Text
after_prefix [] name = some name
after_prefix (c ∷ cs) [] = none
after_prefix (c ∷ cs) (d ∷ name) = if c == d then after_prefix cs name else none

abbrev pub further : ℕ → Option (Text × Text) → Option (Text × Text)
further c none = none
further c (some (pre, post)) = some (c ∷ pre, post)

-- `find`: what stands before and behind the first occurrence.
unfoldable pub find : Text → Text → Option (Text × Text)
unfolding after_prefix
find from [] = elim (after_prefix from []) [ none ↦ none | some post ↦ some ([], post) ]
find from (c ∷ name) = elim (after_prefix from (c ∷ name)) [
  | some post ↦ some ([], post)
  | none ↦ further c (find from name)
]

-- The loop of `replaceString`: the name is `done ++ rest`, and `pos` stands between the two. It
-- stays in front of what is put in.
unfoldable pub replace_loop : ℕ → Text → Text → Text → Text → Option Text
unfolding find
replace_loop zero from to done rest = none
replace_loop (suc fuel) from to done rest = elim (find from rest) [
  | none ↦ some (done ++ rest)
  | some (pre, post) ↦ replace_loop fuel from to (done ++ pre) (to ++ post)
]

unfoldable pub replace_string : ℕ → Text → Text → Text → Option Text
unfolding replace_loop
replace_string fuel name from to = replace_loop fuel from to [] name

-- The inner loop of `removeParameter`, from behind the text to remove: what follows the `>` that
-- closes it, if there is one.
unfoldable pub after_closing : ℕ → Text → Option Text
after_closing depth [] = none
after_closing depth (c ∷ cs) = elim (c == b'<') [
  | true ↦ after_closing (depth + 1) cs
  | false ↦ elim (c == b'>') [
    | true ↦ elim (depth - 1 == 0) [ true ↦ some cs | false ↦ after_closing (depth - 1) cs ]
    | false ↦ after_closing depth cs
  ]
]

abbrev pub ends_with : ℕ → Text → Bool
ends_with c [] = false
ends_with c (d ∷ []) = d == c
ends_with c (d ∷ e ∷ ds) = ends_with c (e ∷ ds)

-- A space that is left behind is erased too, unless it follows a `>`.
unfoldable pub without_space : Text → Text → Text
without_space pre [] = []
without_space pre (c ∷ cs) =
    if c == space && (is_empty pre || not (ends_with b'>' pre)) then cs else c ∷ cs

-- One round of `removeParameter`: the name after it, or `none` if the loop ends. A parameter that
-- is never closed leaves the name as it is.
unfoldable pub remove_round : Text → Text → Option Text
unfolding find after_closing without_space
remove_round to_remove name = elim (find to_remove name) [
  | none ↦ none
  | some (pre, post) ↦ elim (after_closing 1 post) [
    | none ↦ some name
    | some tail ↦ some (pre ++ without_space pre tail)
  ]
]

-- `while`, for a round that says whether the loop goes on.
unfoldable pub repeat : (Text → Option Text) → ℕ → Text → Option Text
repeat round zero name = none
repeat round (suc fuel) name = elim (round name) [
  | none ↦ some name
  | some next ↦ repeat round fuel next
]

unfoldable pub remove_parameter : ℕ → Text → Text → Option Text
unfolding repeat remove_round
remove_parameter fuel name to_remove = repeat (remove_round to_remove) fuel name

-- The inner loop of `constBeforeIdentifier`, from the back of what stands in front of the erased
-- text: the place behind the `<` or the `,` that opens the parameter, and the first byte of the name
-- is not looked at. The text behind the place is gathered.
unfoldable pub insert_const : ℕ → Text → Text → Option Text
insert_const depth [] behind = none
insert_const depth (c ∷ []) behind = none
insert_const depth (c ∷ d ∷ ds) behind = elim (c == b'>') [
  | true ↦ insert_const (depth + 1) (d ∷ ds) (c ∷ behind)
  | false ↦ elim (depth == 0) [
    | false ↦ insert_const (if c == b'<' then depth - 1 else depth) (d ∷ ds) (c ∷ behind)
    | true ↦ elim (c == b'<' || c == b',') [
      | true ↦ some (reverse (c ∷ d ∷ ds) ++ (bytes "const " ++ behind))
      | false ↦ insert_const depth (d ∷ ds) (c ∷ behind)
    ]
  ]
]

abbrev pub or_erased : Text → Option Text → Text
or_erased erased none = erased
or_erased erased (some name) = name

-- One round of `constBeforeIdentifier`. Where the name starts with the text to move, the source
-- reads outside of the name, and the round here leaves it erased.
unfoldable pub const_round : Text → Option Text
unfolding find insert_const
const_round name = elim (find (bytes " const") name) [
  | none ↦ none
  | some (pre, post) ↦ some (or_erased (pre ++ post) (insert_const 0 (reverse pre) post))
]

unfoldable pub const_before_identifier : ℕ → Text → Option Text
unfolding repeat const_round
const_before_identifier fuel name = repeat const_round fuel name

-- One call of `std::regex_match` and `std::regex_replace`, for one expression and format.
pub record Regex : Type 0 where
  pub matches : Text → Bool
  pub replaced : Text → Text

unfoldable pub reformat_round : Regex → Text → Option Text
reformat_round r name = if r.matches name then some (r.replaced name) else none

unfoldable pub reformatter : Regex → ℕ → Text → Option Text
unfolding repeat reformat_round
reformatter r fuel name = repeat (reformat_round r) fuel name

-- What `typeDemangle` does: it returns a name, throws, or is in one of its loops after `fuel` rounds.
pub data Demangled : Type 0 where
  name_of : Text → Demangled
  demangling_error : Demangled
  still_running : Demangled

abbrev pub returned : Option Text → Demangled
returned none = still_running
returned (some name) = name_of name

-- The rewriting, in its order.
unfoldable pub rewrite_name : Regex → ℕ → Text → Option Text
unfolding replace_string remove_parameter const_before_identifier reformatter
rewrite_name r fuel name = do
  n1 ← replace_string fuel name (bytes ", ") (bytes ",")
  n2 ← replace_string fuel n1 (bytes " [") (bytes "[")
  n3 ← replace_string fuel n2 (bytes "std::__1::") (bytes "std::")
  n4 ← replace_string fuel n3 (bytes "std::__cxx11::") (bytes "std::")
  n5 ← remove_parameter fuel n4 (bytes ",std::allocator<")
  n6 ← remove_parameter fuel n5 (bytes ",std::less<")
  n7 ← const_before_identifier fuel n6
  n8 ← replace_string fuel n7 (bytes ">>") (bytes "> >")
  n9 ← reformatter r fuel n8
  n10 ← replace_string fuel n9 (bytes "unsigned long long") (bytes "ULong64_t")
  replace_string fuel n10 (bytes "long long") (bytes "Long64_t")

-- `typeDemangle`; `abi::__cxa_demangle` is the parameter `demangle`, null for `none`.
unfoldable pub type_demangle : (Text → Option Text) → Regex → ℕ → Text → Demangled
unfolding rewrite_name
type_demangle demangle r fuel mangled = elim (demangle mangled) [
  | none ↦ demangling_error
  | some name ↦ returned (rewrite_name r fuel name)
]
