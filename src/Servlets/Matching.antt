-- ===== src/Servlets/Matching.antt =====
-- Each name stands once in a table, and what `getMatchedServlet` chooses.
use server_framework.Base.{
  ℕ, ◌≡◌, refl, sym, ap, ◌∙◌, subst, Bool, true, false, Bool-cases, if◌then◌else◌, Option, none,
  some, List, [], ◌∷◌, ◌++◌, inl, inr, All, All-append,
}
use server_framework.Servlets.{
  Entry, ServletDispatch, same_uri, lookup, put_uri, erase_uri, add_servlet, del_servlet,
  add_glob_servlet, del_glob_servlet, get_servlet, servlet_or, first_match, get_matched_servlet,
}
use server_framework.Servlets.Tables.{
  same_uri_refl, same_uri-eq, lookup-miss, lookup-nil, put-hit, put-miss, put-nil, erase-hit,
  erase-miss, erase-nil, found-put, other-put,
}

-- The entry stands for another name.
abbrev Apart : List ℕ → Entry → Type 0
Apart uri e = same_uri e.uri uri ≡ false

abbrev IsKeyed : List Entry → Type 0
IsKeyed [] = Unit {0}
IsKeyed (e ∷ es) = All (Apart e.uri) es × IsKeyed es

pub record IsValid (d : ServletDispatch) : Type 0 where
  pub exact : IsKeyed d.datas
  pub patterns : IsKeyed d.globs

erase-All :
    (P : Entry → Type 0) (uri : List ℕ) (es : List Entry) → All P es → All P (erase_uri uri es)
erase-All P uri [] h = subst (All P) (sym (erase-nil uri)) tt
erase-All P uri (e ∷ es) h = elim (Bool-cases (same_uri e.uri uri)) [
  | inl k ↦ subst (All P) (sym (erase-hit uri e es k)) h.1
  | inr k ↦ subst (All P) (sym (erase-miss uri e es k)) (h.0, erase-All P uri es h.1)
]

erase-IsKeyed : (uri : List ℕ) (es : List Entry) → IsKeyed es → IsKeyed (erase_uri uri es)
erase-IsKeyed uri [] h = subst IsKeyed (sym (erase-nil uri)) tt
erase-IsKeyed uri (e ∷ es) h = elim (Bool-cases (same_uri e.uri uri)) [
  | inl k ↦ subst IsKeyed (sym (erase-hit uri e es k)) h.1
  | inr k ↦
      subst IsKeyed (sym (erase-miss uri e es k))
        (erase-All (Apart e.uri) uri es h.0, erase-IsKeyed uri es h.1)
]

-- No entry for the name is left.
erase-Apart : (uri : List ℕ) (es : List Entry) → IsKeyed es → All (Apart uri) (erase_uri uri es)
erase-Apart uri [] h = subst (All (Apart uri)) (sym (erase-nil uri)) tt
erase-Apart uri (e ∷ es) h = elim (Bool-cases (same_uri e.uri uri)) [
  | inl k ↦
      subst (All (Apart uri)) (sym (erase-hit uri e es k))
        (subst (λ u. All (Apart u) es) (same_uri-eq e.uri uri k) h.0)
  | inr k ↦ subst (All (Apart uri)) (sym (erase-miss uri e es k)) (k, erase-Apart uri es h.1)
]

put-All :
    (P : Entry → Type 0) (uri : List ℕ) (slt : Option ℕ) (es : List Entry)
    → ((e : Entry) → same_uri e.uri uri ≡ true → P (record e { servlet = slt }))
    → P (record { uri = uri; servlet = slt })
    → All P es
    → All P (put_uri uri slt es)
put-All P uri slt [] f p h = subst (All P) (sym (put-nil uri slt)) (p, tt)
put-All P uri slt (e ∷ es) f p h = elim (Bool-cases (same_uri e.uri uri)) [
  | inl k ↦ subst (All P) (sym (put-hit uri slt e es k)) (f e k, h.1)
  | inr k ↦ subst (All P) (sym (put-miss uri slt e es k)) (h.0, put-All P uri slt es f p h.1)
]

same_uri-sym : (xs ys : List ℕ) → same_uri xs ys ≡ false → same_uri ys xs ≡ false
same_uri-sym xs ys h = elim (Bool-cases (same_uri ys xs)) [
  | inl e ↦ cc (sym h ∙ ap (λ u. same_uri xs u) (same_uri-eq ys xs e) ∙ same_uri_refl xs)
  | inr e ↦ e
]

put-IsKeyed :
    (uri : List ℕ) (slt : Option ℕ) (es : List Entry) → IsKeyed es → IsKeyed (put_uri uri slt es)
put-IsKeyed uri slt [] h = subst IsKeyed (sym (put-nil uri slt)) (tt, tt)
put-IsKeyed uri slt (e ∷ es) h = elim (Bool-cases (same_uri e.uri uri)) [
  | inl k ↦ subst IsKeyed (sym (put-hit uri slt e es k)) h
  | inr k ↦
      let away = same_uri-sym e.uri uri k in
      subst IsKeyed (sym (put-miss uri slt e es k)) (
        put-All (Apart e.uri) uri slt es
            (λ f l. ap (λ u. same_uri u e.uri) (same_uri-eq f.uri uri l) ∙ away) away h.0,
        put-IsKeyed uri slt es h.1,
      )
]

last-IsKeyed :
    (uri : List ℕ) (slt : Option ℕ) (es : List Entry)
    → IsKeyed es
    → All (Apart uri) es
    → IsKeyed (es ++ record { uri = uri; servlet = slt } ∷ [])
last-IsKeyed uri slt [] h away = (tt, tt)
last-IsKeyed uri slt (e ∷ es) h away = (
  All-append (Apart e.uri) es (record { uri = uri; servlet = slt } ∷ []) h.0
      (same_uri-sym e.uri uri away.0, tt),
  last-IsKeyed uri slt es h.1 away.1,
)

-- On tables that hold each name once, `addServlet`, `delServlet`, `addGlobServlet` and
-- `delGlobServlet` leave tables that hold each name once.
pub tables-IsValid :
    (d : ServletDispatch) (uri : List ℕ) (slt : Option ℕ)
    → IsValid d
    → IsValid (add_servlet d uri slt)
      × IsValid (del_servlet d uri)
      × IsValid (add_glob_servlet d uri slt)
      × IsValid (del_glob_servlet d uri)
unfolding add_servlet del_servlet add_glob_servlet del_glob_servlet
tables-IsValid d uri slt v = (
  record { exact = put-IsKeyed uri slt d.datas v.exact; patterns = v.patterns },
  record { exact = erase-IsKeyed uri d.datas v.exact; patterns = v.patterns },
  record {
    exact = v.exact;
    patterns =
        last-IsKeyed uri slt (erase_uri uri d.globs) (erase-IsKeyed uri d.globs v.patterns)
          (erase-Apart uri d.globs v.patterns);
  },
  record { exact = v.exact; patterns = erase-IsKeyed uri d.globs v.patterns },
)

lookup-Apart : (uri : List ℕ) (es : List Entry) → All (Apart uri) es → lookup uri es ≡ none
lookup-Apart uri [] h = lookup-nil uri
lookup-Apart uri (e ∷ es) h = lookup-miss uri e es h.0 ∙ lookup-Apart uri es h.1

module _ (fnmatch : List ℕ → List ℕ → Bool) where
  -- Behind `addServlet` of a name, `getServlet` and `getMatchedServlet` of this name return the
  -- new servlet, whatever patterns match, and those of any other name return what they did
  -- before.
  pub add_servlet-exact :
      (d : ServletDispatch) (uri v : List ℕ) (slt : Option ℕ)
      → same_uri uri v ≡ false
      → (get_matched_servlet fnmatch (add_servlet d uri slt) uri ≡ slt)
        × (get_servlet (add_servlet d uri slt) uri ≡ slt)
        × (get_servlet (add_servlet d uri slt) v ≡ get_servlet d v)
        × (get_matched_servlet fnmatch (add_servlet d uri slt) v ≡ get_matched_servlet fnmatch d v)
  unfolding add_servlet get_servlet get_matched_servlet
  add_servlet-exact d uri v slt apart = (
    found-put uri slt (servlet_or (first_match fnmatch uri d.globs) d.default_servlet) d.datas,
    found-put uri slt none d.datas,
    other-put uri v slt none d.datas apart,
    other-put uri v slt (servlet_or (first_match fnmatch v d.globs) d.default_servlet) d.datas
        apart,
  )

  -- On tables that hold each name once, `getServlet` of a name behind its `delServlet` returns
  -- null, and `getMatchedServlet` falls back on the first pattern that matches, or else on the
  -- default servlet.
  pub del_servlet-matched :
      (d : ServletDispatch) (uri : List ℕ)
      → IsValid d
      → (get_servlet (del_servlet d uri) uri ≡ none)
        × (get_matched_servlet fnmatch (del_servlet d uri) uri
            ≡ servlet_or (first_match fnmatch uri d.globs) d.default_servlet)
  unfolding del_servlet get_servlet get_matched_servlet
  del_servlet-matched d uri v =
      let gone = lookup-Apart uri (erase_uri uri d.datas) (erase-Apart uri d.datas v.exact) in
      (
        ap (λ o. servlet_or o none) gone,
        ap (λ o. servlet_or o (servlet_or (first_match fnmatch uri d.globs) d.default_servlet))
            gone,
      )

  first_match-hit :
      (uri : List ℕ) (e : Entry) (es : List Entry)
      → fnmatch e.uri uri ≡ true
      → first_match fnmatch uri (e ∷ es) ≡ some e
  unfolding first_match
  first_match-hit uri e es h = rw h

  first_match-miss :
      (uri : List ℕ) (e : Entry) (es : List Entry)
      → fnmatch e.uri uri ≡ false
      → first_match fnmatch uri (e ∷ es) ≡ first_match fnmatch uri es
  unfolding first_match
  first_match-miss uri e es h = rw h

  first_match-nil : (uri : List ℕ) → first_match fnmatch uri [] ≡ none
  unfolding first_match
  first_match-nil uri = refl

  last-first_match :
      (uri : List ℕ) (e : Entry) (es : List Entry) (other : Option ℕ)
      → fnmatch e.uri uri ≡ true
      → servlet_or (first_match fnmatch uri (es ++ e ∷ [])) other
        ≡ servlet_or (first_match fnmatch uri es) e.servlet
  last-first_match uri e [] other h = rw (first_match-hit uri e [] h, first_match-nil uri) refl
  last-first_match uri e (f ∷ fs) other h = elim (Bool-cases (fnmatch f.uri uri)) [
    | inl k ↦ rw (first_match-hit uri f (fs ++ e ∷ []) k, first_match-hit uri f fs k) refl
    | inr k ↦
        rw (first_match-miss uri f (fs ++ e ∷ []) k, first_match-miss uri f fs k)
          (last-first_match uri e fs other h)
  ]

  -- The first entry for another pattern than `pattern` that matches, on its own.
  abbrev pub first_other : List ℕ → List ℕ → List Entry → Option Entry
  first_other pattern uri [] = none
  first_other pattern uri (e ∷ es) =
      let rest = first_other pattern uri es in
      if same_uri e.uri pattern then rest else (if fnmatch e.uri uri then some e else rest)

  first_other-Apart :
      (pattern uri : List ℕ) (es : List Entry)
      → All (Apart pattern) es
      → first_match fnmatch uri es ≡ first_other pattern uri es
  first_other-Apart pattern uri [] h = first_match-nil uri
  first_other-Apart pattern uri (e ∷ es) h = elim (Bool-cases (fnmatch e.uri uri)) [
    | inl k ↦ rw (h.0, k) (first_match-hit uri e es k)
    | inr k ↦ rw (h.0, k) (first_match-miss uri e es k ∙ first_other-Apart pattern uri es h.1)
  ]

  first_match-erase_uri :
      (pattern uri : List ℕ) (es : List Entry)
      → IsKeyed es
      → first_match fnmatch uri (erase_uri pattern es) ≡ first_other pattern uri es
  first_match-erase_uri pattern uri [] h = rw (erase-nil pattern) (first_match-nil uri)
  first_match-erase_uri pattern uri (e ∷ es) h = elim (Bool-cases (same_uri e.uri pattern)) [
    | inl k ↦
        rw (erase-hit pattern e es k, k)
          (first_other-Apart pattern uri es
            (subst (λ u. All (Apart u) es) (same_uri-eq e.uri pattern k) h.0))
    | inr k ↦ elim (Bool-cases (fnmatch e.uri uri)) [
      | inl m ↦
          rw (erase-miss pattern e es k, k, m) (first_match-hit uri e (erase_uri pattern es) m)
      | inr m ↦
          rw (erase-miss pattern e es k, k, m)
            (first_match-miss uri e (erase_uri pattern es) m
              ∙ first_match-erase_uri pattern uri es h.1)
    ]
  ]

  -- On tables that hold each name once, for a name that is not in the exact table and that a
  -- pattern matches, `getMatchedServlet` behind `addGlobServlet` of this pattern returns the
  -- servlet of the first entry for another pattern that matches, in the order in which they
  -- were added, and the new servlet if there is none.
  pub add_glob_servlet-matched :
      (d : ServletDispatch) (pattern uri : List ℕ) (slt : Option ℕ)
      → IsValid d
      → lookup uri d.datas ≡ none
      → fnmatch pattern uri ≡ true
      → get_matched_servlet fnmatch (add_glob_servlet d pattern slt) uri
        ≡ servlet_or (first_other pattern uri d.globs) slt
  unfolding add_glob_servlet get_matched_servlet
  add_glob_servlet-matched d pattern uri slt v free matches =
      ap
        (λ o. servlet_or o (
          servlet_or
            (first_match fnmatch uri
              (erase_uri pattern d.globs ++ record { uri = pattern; servlet = slt } ∷ []))
            d.default_servlet))
        free
      ∙ last-first_match uri (record { uri = pattern; servlet = slt }) (erase_uri pattern d.globs)
          d.default_servlet matches
      ∙ ap (λ o. servlet_or o slt) (first_match-erase_uri pattern uri d.globs v.patterns)
