-- ===== src/Servlets/Examples.antt =====
-- A dispatch with one exact name and two patterns, where a pattern matches as `fnmatch` does if it
-- has a star at the end and nowhere else: the name begins with what is before the star.
use server_framework.Base.{
  ℕ, ◌≡◌, refl, Bool, true, false, ◌==◌, ◌&&◌, ◌||◌, none, some, List, [], ◌∷◌,
}
use server_framework.Servlets.{
  ServletDispatch, same_uri, lookup, add_glob_servlet, servlet_or, first_match, get_matched_servlet,
}
use server_framework.Servlets.Matching.{IsValid, first_other, add_glob_servlet-matched}

abbrev begins : List ℕ → List ℕ → Bool
begins [] ys = true
begins (x ∷ xs) [] = x == b'*'
begins (x ∷ xs) (y ∷ ys) = (x == b'*') || ((x == y) && begins xs ys)

abbrev slash_a : List ℕ
slash_a = b'/' ∷ b'a' ∷ []

abbrev slash_b : List ℕ
slash_b = b'/' ∷ b'b' ∷ []

abbrev slash_star : List ℕ
slash_star = b'/' ∷ b'*' ∷ []

abbrev site : ServletDispatch
site = record {
  datas = record { uri = slash_a; servlet = some 1 } ∷ [];
  globs = record { uri = slash_star; servlet = some 2 } ∷ [];
  default_servlet = some 404;
}

site-IsValid : IsValid site
site-IsValid = record { exact = (tt, tt); patterns = (tt, tt) }

exact_first : get_matched_servlet begins site slash_a ≡ some 1
unfolding get_matched_servlet lookup same_uri first_match
exact_first = refl

pattern_second : get_matched_servlet begins site slash_b ≡ some 2
unfolding get_matched_servlet lookup same_uri first_match
pattern_second = refl

apart : same_uri slash_b slash_a ≡ false
unfolding same_uri
apart = refl

not_exact : lookup slash_b site.datas ≡ none
unfolding lookup same_uri
not_exact = refl

-- The pattern that was there is replaced by itself behind the other one.
abbrev two_patterns : ServletDispatch
two_patterns = record {
  datas = record { uri = slash_a; servlet = some 1 } ∷ [];
  globs =
      record { uri = slash_b; servlet = some 5 }
      ∷ record { uri = slash_star; servlet = some 2 }
      ∷ [];
  default_servlet = some 404;
}

two_patterns-IsValid : IsValid two_patterns
unfolding same_uri
two_patterns-IsValid = record { exact = (tt, tt); patterns = ((refl, tt), (tt, tt)) }

add_glob_servlet-matched_example :
    get_matched_servlet begins (add_glob_servlet two_patterns slash_b (some 3)) slash_b
    ≡ servlet_or (first_other begins slash_b slash_b two_patterns.globs) (some 3)
add_glob_servlet-matched_example =
    add_glob_servlet-matched begins two_patterns slash_b slash_b (some 3) two_patterns-IsValid
      not_exact refl
