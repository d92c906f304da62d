-- ===== src/Servlets.antt =====
-- captain/http/servlet.cpp, captain/http/servlet.h: the tables of servlets, and the choice of one.
-- A string is the list of its bytes, a servlet is its address, and a null pointer is `none`. The
-- map `m_datas` is a list of pairs. `fnmatch` of the C library is a parameter: does the pattern match?
mod Tables
mod Matching
mod Examples
use server_framework.Base.{
  ℕ, Bool, true, false, ◌==◌, ◌&&◌, if◌then◌else◌, Option, none, some, List, [], ◌∷◌, ◌++◌,
}

-- `operator==` of `std::string`.
pub same_uri : List ℕ → List ℕ → Bool
same_uri [] [] = true
same_uri [] (y ∷ ys) = false
same_uri (x ∷ xs) [] = false
same_uri (x ∷ xs) (y ∷ ys) = (x == y) && same_uri xs ys

pub record Entry : Type 0 where
  pub uri : List ℕ
  pub servlet : Option ℕ

pub record ServletDispatch : Type 0 where
  pub datas : List Entry
  pub globs : List Entry
  pub default_servlet : Option ℕ

-- `m_datas.find(uri)`, and the loop over `m_globs` that looks for a pattern.
pub lookup : List ℕ → List Entry → Option Entry
unfolding same_uri
lookup uri [] = none
lookup uri (e ∷ es) = let rest = lookup uri es in if same_uri e.uri uri then some e else rest

-- `m_datas[uri] = slt`
pub put_uri : List ℕ → Option ℕ → List Entry → List Entry
unfolding same_uri
put_uri uri slt [] = record { uri = uri; servlet = slt } ∷ []
put_uri uri slt (e ∷ es) =
    let rest = put_uri uri slt es in
    if same_uri e.uri uri then record e { servlet = slt } ∷ es else e ∷ rest

-- `m_datas.erase(uri)`, and the loop over `m_globs` that erases the first entry with the pattern.
pub erase_uri : List ℕ → List Entry → List Entry
unfolding same_uri
erase_uri uri [] = []
erase_uri uri (e ∷ es) = let rest = erase_uri uri es in if same_uri e.uri uri then es else e ∷ rest

pub add_servlet : ServletDispatch → List ℕ → Option ℕ → ServletDispatch
add_servlet d uri slt = record d { datas = put_uri uri slt d.datas }

pub add_glob_servlet : ServletDispatch → List ℕ → Option ℕ → ServletDispatch
add_glob_servlet d uri slt = record d {
  globs = erase_uri uri d.globs ++ record { uri = uri; servlet = slt } ∷ [];
}

pub del_servlet : ServletDispatch → List ℕ → ServletDispatch
del_servlet d uri = record d { datas = erase_uri uri d.datas }

pub del_glob_servlet : ServletDispatch → List ℕ → ServletDispatch
del_glob_servlet d uri = record d { globs = erase_uri uri d.globs }

-- `it == end() ? nullptr : it->second`
abbrev pub servlet_or : Option Entry → Option ℕ → Option ℕ
servlet_or none other = other
servlet_or (some e) other = e.servlet

pub get_servlet : ServletDispatch → List ℕ → Option ℕ
get_servlet d uri = servlet_or (lookup uri d.datas) none

pub get_glob_servlet : ServletDispatch → List ℕ → Option ℕ
get_glob_servlet d uri = servlet_or (lookup uri d.globs) none

module _ (fnmatch : List ℕ → List ℕ → Bool) where
  -- The loop over `m_globs` in `getMatchedServlet`.
  pub first_match : List ℕ → List Entry → Option Entry
  first_match uri [] = none
  first_match uri (e ∷ es) =
      let rest = first_match uri es in if fnmatch e.uri uri then some e else rest

  pub get_matched_servlet : ServletDispatch → List ℕ → Option ℕ
  get_matched_servlet d uri =
      servlet_or (lookup uri d.datas) (servlet_or (first_match uri d.globs) d.default_servlet)

  -- `handle`: the servlet that the request is passed to, if any; the result is 0 always.
  pub dispatch : ServletDispatch → List ℕ → Option ℕ × ℕ
  unfolding get_matched_servlet
  dispatch d path = (get_matched_servlet d path, 0)
