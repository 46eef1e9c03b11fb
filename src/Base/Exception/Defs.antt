-- ===== src/Base/Exception/Defs.antt =====
-- `cms::Exception`. A `std::string` is the list of its bytes, and a `std::ostringstream` is its
-- text: `<<` writes at the end.
use Prim.Native.Char.{code}
use Prim.Native.String.{String}
use unify_prototype.Common.{
  is_empty, ℕ, zero, suc, ◌+◌, ◌-◌, ◌/◌, ◌%◌, ◌^◌, Bool, true, false, not, ◌&&◌, List, [], ◌∷◌,
  ◌++◌, Option, none, some, ◌==◌, ltb, if◌then◌else◌, length, get_elem?,
}
use mathlib.Core.List.{reverse}

abbrev pub Text : Type 0
Text = List ℕ

-- The bytes of a literal.
abbrev pub bytes : String → Text
bytes String.[] = []
bytes (String.◌∷◌ c s) = code c ∷ bytes s

abbrev pub newline : ℕ
newline = 10

abbrev pub space : ℕ
space = 32

pub record Exception : Type 0 where
  pub ost : Text
  pub category : Text
  pub last_what : Text
  pub context : List Text
  pub additional_info : List Text
  pub already_printed : Bool

-- The constructors from a category.
abbrev pub of_category : Text → Exception
of_category c = record {
  ost = [];
  category = c;
  last_what = [];
  context = [];
  additional_info = [];
  already_printed = false;
}

abbrev pub is_byte : ℕ → Option ℕ → Bool
is_byte c none = false
is_byte c (some d) = d == c

-- `init`: the index of the last byte is narrowed to `unsigned`.
unfoldable pub init : Exception → Text → Exception
init e message =
    let written = record e { ost = e.ost ++ message } in
    let last = get_elem? message ((length message - 1) % 2 ^ 32) in
    if not (is_empty message)
    then (if not (is_byte newline last) && not (is_byte space last)
        then record written { ost = written.ost ++ space ∷ [] }
        else written)
    else written

-- The constructors from a category and a message.
unfoldable pub of_message : Text → Text → Exception
unfolding init
of_message c message = init (of_category c) message

unfoldable pub append : Exception → Exception → Exception
append e another = record e { ost = e.ost ++ another.ost }

unfoldable pub append_text : Exception → Text → Exception
append_text e more_information = record e { ost = e.ost ++ more_information }

-- The constructor from a category, a message and another exception.
unfoldable pub of_another : Text → Text → Exception → Exception
unfolding append
of_another c message another =
    let fresh = record (of_category c) {
      context = another.context;
      additional_info = another.additional_info;
    } in
    let last = get_elem? message (length message - 1) in
    let ended =
      if not (is_empty message) && not (is_byte newline last)
      then message ++ newline ∷ []
      else message in
    append (record fresh { ost = ended }) another

-- The copy constructor.
unfoldable pub copy : Exception → Exception
copy other = record {
  ost = [] ++ other.ost;
  category = other.category;
  last_what = other.last_what;
  context = other.context;
  additional_info = other.additional_info;
  already_printed = other.already_printed;
}

-- `swap`: both exceptions after it.
unfoldable pub swap : Exception → Exception → Exception × Exception
swap e other = (
  record {
    ost = e.ost ++ other.ost;
    category = other.category;
    last_what = other.last_what;
    context = other.context;
    additional_info = other.additional_info;
    already_printed = other.already_printed;
  },
  record {
    ost = other.ost;
    category = e.category;
    last_what = e.last_what;
    context = e.context;
    additional_info = e.additional_info;
    already_printed = e.already_printed;
  },
)

-- `operator=`.
unfoldable pub assign : Exception → Exception → Exception
unfolding copy swap
assign e other = (swap e (copy other)).0

-- `<< count` of an `int` that is not negative.
unfoldable pub digits_of : ℕ → ℕ → Text
digits_of zero n = []
digits_of (suc fuel) n =
    let front = digits_of fuel (n / 10) in
    if ltb n 10 then (n + b'0') ∷ [] else front ++ (n % 10 + b'0') ∷ []

unfoldable pub decimal : ℕ → Text
unfolding digits_of
decimal n = digits_of (suc n) n

-- The loop over `context_`, from its back.
unfoldable pub context_lines : ℕ → List Text → Text
context_lines count [] = []
context_lines count (c ∷ cs) =
    bytes "   ["
    ++ (decimal count ++ (bytes "] " ++ (c ++ (newline ∷ context_lines (count + 1) cs))))

-- The loop over `additionalInfo_`, from its back: `c` is a `char`.
unfoldable pub info_lines : ℕ → List Text → Text
info_lines c [] = []
info_lines c (i ∷ is) =
    bytes "      [" ++ (c ∷ (bytes "] " ++ (i ++ (newline ∷ info_lines ((c + 1) % 256) is))))

unfoldable pub explain_category : Exception → Text
explain_category e =
    bytes "An exception of category '"
    ++ (e.category
        ++ (if is_empty e.context
            then bytes "' occurred." ++ newline ∷ []
            else bytes "' occurred while" ++ (newline ∷ context_lines 0 (reverse e.context))))

unfoldable pub explain_message : Text → Text
explain_message central_message =
    if not (is_empty central_message)
    then bytes "Exception Message:"
      ++ (newline
          ∷ (central_message
              ++ (if is_byte newline (get_elem? central_message (length central_message - 1))
                  then []
                  else newline ∷ [])))
    else []

unfoldable pub explain_info : List Text → Text
explain_info infos =
    if not (is_empty infos)
    then bytes "   Additional Info:" ++ (newline ∷ info_lines b'a' (reverse infos))
    else []

unfoldable pub explain_self : Exception → Text
explain_self e = explain_category e ++ (explain_message e.ost ++ explain_info e.additional_info)

-- `what`: the exception after it, and the text.
unfoldable pub what : Exception → Exception × Text
what e = (record e { last_what = explain_self e }, explain_self e)

abbrev pub message : Exception → Text
message e = e.ost

abbrev pub return_code : Exception → ℕ
return_code e = 8001

unfoldable pub clear_message : Exception → Exception
clear_message e = record e { ost = [] }

unfoldable pub clear_context : Exception → Exception
clear_context e = record e { context = [] }

unfoldable pub clear_additional_info : Exception → Exception
clear_additional_info e = record e { additional_info = [] }

unfoldable pub add_context : Exception → Text → Exception
add_context e c = record e { context = e.context ++ c ∷ [] }

unfoldable pub add_additional_info : Exception → Text → Exception
add_additional_info e i = record e { additional_info = e.additional_info ++ i ∷ [] }

unfoldable pub set_context : Exception → List Text → Exception
set_context e c = record e { context = c }

unfoldable pub set_additional_info : Exception → List Text → Exception
set_additional_info e i = record e { additional_info = i }

unfoldable pub set_already_printed : Exception → Exception
set_already_printed e = record e { already_printed = true }

unfoldable pub history : Exception → List Text
history e = e.category ∷ []
