-- ===== src/Tests/Patterns.antt =====
-- Patterns of sh9/src/eval/utils.rs.
use fs.Base.{◌≡◌, refl, true, false, ◌∷◌, [], Text, chars, arith, text_eq}
use fs.Sh9.Outcome.{ok, panic}
use fs.Sh9.Glob.{match_glob_pattern}
use fs.Sh9.Glob.Matching.{Decides, Matches, items, match_glob_pattern_lem}

abbrev sources : Text
sources = chars "[a-z]*.r?"

match_glob_pattern_lem_example :
    Decides
      (Matches (items 9 sources) (chars "lexer.rs"))
      (match_glob_pattern 9 sources (chars "lexer.rs"))
match_glob_pattern_lem_example =
    match_glob_pattern_lem 9 sources (chars "lexer.rs") (omega arith)
      (refl, (refl, (refl, (refl, (refl, (refl, (refl, (refl, tt))))))))

lexer : match_glob_pattern 9 sources (chars "lexer.rs") ≡ ok true
unfolding match_glob_pattern
lexer = refl

no_capital : match_glob_pattern 9 sources (chars "Lexer.rs") ≡ ok false
unfolding match_glob_pattern
no_capital = refl

-- A name that begins with a character of two bytes aborts the walk behind a `*`.
two_bytes : match_glob_pattern 2 (chars "*a") (0xe9 ∷ b'b' ∷ []) ≡ panic
unfolding match_glob_pattern
two_bytes = refl
