-- ===== src/Base/TypeDemangler/Tests.antt =====
-- Names that are rewritten, one that is not, and the properties at them.
use unify_prototype.Common.{ℕ, ◌≤◌, ◌≡◌, ◌⊎◌, refl, false, [], ◌∷◌, ◌++◌, none, some, arith}
use unify_prototype.Base.Exception.Defs.{Text, bytes}
use unify_prototype.Base.TypeDemangler.Defs.{
  find, replace_string, remove_parameter, const_round, const_before_identifier, Regex,
  type_demangle, name_of, demangling_error,
}
use unify_prototype.Base.TypeDemangler.Replacing.{replace_string-ends}
use unify_prototype.Base.TypeDemangler.Removing.{Rounds, Unclosed, remove_parameter-ends_or_hangs}
use unify_prototype.Base.TypeDemangler.Moving.{doubled_const_hangs}

-- No number in these names has a qualifier.
abbrev no_match : Regex
no_match = record { matches = λ name. false; replaced = λ name. name }

vector :
    type_demangle
      (λ m. some (bytes "std::vector<int const*, std::allocator<int const*> >"))
      no_match
      60
      []
    ≡ name_of (bytes "std::vector<const int*>")
unfolding type_demangle
vector = refl

unknown : type_demangle (λ m. none) no_match 60 [] ≡ demangling_error
unfolding type_demangle
unknown = refl

-- The pair of a map whose keys are constant pointers to constants: after two rounds the loop is
-- where `doubled_const_hangs` begins.
abbrev key_pair : Text
key_pair = bytes "pair<char const* const,int>"

first_round : const_round key_pair ≡ some (bytes "pair<const char* const,int>")
unfolding const_round
first_round = refl

second_round :
    const_round (bytes "pair<const char* const,int>") ≡ some (bytes "pair<const const char*,int>")
unfolding const_round
second_round = refl

doubled_const_hangs_example :
    const_before_identifier 1_000
      (bytes "pai" ++ (b'r' ∷ (bytes "<const const " ++ bytes "char*,int>")))
    ≡ none
doubled_const_hangs_example =
    doubled_const_hangs (bytes "pai") b'r' (bytes "char*,int>") 1_000
      ((λ e. omega arith), ((λ e. omega arith), ((λ e. omega arith), tt))) (λ e. omega arith)

comma_in_nothing : find (bytes ", ") (bytes ",") ≡ none
unfolding find
comma_in_nothing = refl

replace_string-ends_example :
    (r : Text) × (replace_string 20 (bytes "pair<int,  long>") (bytes ", ") (bytes ",") ≡ some r)
    × (find (bytes ", ") (bytes "pair<int,  long>") ≡ none → r ≡ bytes "pair<int,  long>")
replace_string-ends_example =
    replace_string-ends (bytes "pair<int,  long>") (bytes ", ") (bytes ",") 20 (λ e. cc)
      comma_in_nothing (omega arith)

remove_parameter-ends_or_hangs_example :
    ((r : Text) × Rounds (bytes ",std::less<") (bytes "set<int,std::less<int> ,int>") r
      × (find (bytes ",std::less<") r ≡ none)
      × ((fuel : ℕ)
          → 29 ≤ fuel
          → remove_parameter fuel (bytes "set<int,std::less<int> ,int>") (bytes ",std::less<")
            ≡ some r))
    ⊎ ((stuck : Text) × Rounds (bytes ",std::less<") (bytes "set<int,std::less<int> ,int>") stuck
        × Unclosed (bytes ",std::less<") stuck
        × ((fuel : ℕ)
            → remove_parameter fuel (bytes "set<int,std::less<int> ,int>") (bytes ",std::less<")
              ≡ none))
remove_parameter-ends_or_hangs_example =
    remove_parameter-ends_or_hangs (bytes ",std::less<") (bytes "set<int,std::less<int> ,int>")
      (λ e. cc)
