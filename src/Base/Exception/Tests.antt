-- ===== src/Base/Exception/Tests.antt =====
-- Exceptions as they are printed, and the properties at them.
use unify_prototype.Common.{◌≡◌, ◌↔◌, refl, [], ◌∷◌, ◌++◌, false}
use unify_prototype.Base.Exception.Defs.{
  bytes, newline, Exception, of_another, assign, copy, message, decimal, context_lines, info_lines,
  explain_category, explain_message, explain_info, explain_self, add_context,
}
use unify_prototype.Base.Exception.Message.{assign_appends}
use unify_prototype.Base.Exception.Explanation.{newest_context_first}

abbrev raised : Exception
raised = record {
  ost = bytes "I died ";
  category = bytes "DataCorrupt";
  last_what = [];
  context = bytes "Reading" ∷ [];
  additional_info = bytes "disk full" ∷ [];
  already_printed = false;
}

printed :
    explain_self (add_context raised (bytes "Running"))
    ≡ bytes
        "An exception of category 'DataCorrupt' occurred while\n   [0] Running\n   [1] Reading\nException Message:\nI died \n   Additional Info:\n      [a] disk full\n"
unfolding explain_self explain_category explain_message explain_info context_lines info_lines
    decimal add_context
printed = refl

nested :
    message (of_another (bytes "Outer") (bytes "while reading") raised)
    ≡ bytes "while reading\nI died "
unfolding of_another
nested = refl

assigned : message (assign raised raised) ≡ bytes "I died I died "
unfolding assign
assigned = refl

assign_appends_example :
    (assign raised raised ≡ record raised { ost = bytes "I died I died " })
    × ((assign raised raised ≡ copy raised) ↔ (message raised ≡ []))
assign_appends_example = assign_appends raised raised

newest_context_first_example :
    explain_self (add_context raised (bytes "Running"))
    ≡ bytes "An exception of category '"
      ++ (bytes "DataCorrupt"
          ++ (bytes "' occurred while\n   [0] "
              ++ (bytes "Running" ++ (newline ∷ context_lines 1 (bytes "Reading" ∷ [])))))
      ++ (explain_message (bytes "I died ") ++ explain_info (bytes "disk full" ∷ []))
newest_context_first_example = newest_context_first raised (bytes "Running")
