-- ===== src/Servlets/Tables.antt =====
-- The tables: what is looked up behind `addServlet`, `delServlet` and `addGlobServlet`.
use server_framework.Base.{
  ℕ, ◌≡◌, refl, sym, ap, ◌∙◌, true, false, Bool-cases, ◌==◌, ◌&&◌, ==→eq, eq→==, Option, none, some,
  List, [], ◌∷◌, inl, inr,
}
use mathlib.Core.Path.{ap₂}
use server_framework.Servlets.{Entry, same_uri, lookup, put_uri, erase_uri, servlet_or}

pub same_uri_refl : (xs : List ℕ) → same_uri xs xs ≡ true
unfolding same_uri
same_uri_refl [] = refl
same_uri_refl (x ∷ xs) = rw (eq→== x x refl) (same_uri_refl xs)

pub same_uri-eq : (xs ys : List ℕ) → same_uri xs ys ≡ true → xs ≡ ys
unfolding same_uri
same_uri-eq [] [] h = refl
same_uri-eq [] (y ∷ ys) h = cc
same_uri-eq (x ∷ xs) [] h = cc
same_uri-eq (x ∷ xs) (y ∷ ys) h = elim (Bool-cases (x == y)) [
  | inl e ↦ ap₂ (◌∷◌) (==→eq x y e) (same_uri-eq xs ys (sym (ap (λ b. b && same_uri xs ys) e) ∙ h))
  | inr e ↦ cc (sym (ap (λ b. b && same_uri xs ys) e) ∙ h)
]

pub lookup-hit :
    (uri : List ℕ) (e : Entry) (es : List Entry)
    → same_uri e.uri uri ≡ true
    → lookup uri (e ∷ es) ≡ some e
unfolding lookup
lookup-hit uri e es h = rw h

pub lookup-miss :
    (uri : List ℕ) (e : Entry) (es : List Entry)
    → same_uri e.uri uri ≡ false
    → lookup uri (e ∷ es) ≡ lookup uri es
unfolding lookup
lookup-miss uri e es h = rw h

pub lookup-nil : (uri : List ℕ) → lookup uri [] ≡ none
unfolding lookup
lookup-nil uri = refl

pub put-hit :
    (uri : List ℕ) (slt : Option ℕ) (e : Entry) (es : List Entry)
    → same_uri e.uri uri ≡ true
    → put_uri uri slt (e ∷ es) ≡ record e { servlet = slt } ∷ es
unfolding put_uri
put-hit uri slt e es h = rw h

pub put-miss :
    (uri : List ℕ) (slt : Option ℕ) (e : Entry) (es : List Entry)
    → same_uri e.uri uri ≡ false
    → put_uri uri slt (e ∷ es) ≡ e ∷ put_uri uri slt es
unfolding put_uri
put-miss uri slt e es h = rw h

pub put-nil :
    (uri : List ℕ) (slt : Option ℕ) → put_uri uri slt [] ≡ record { uri = uri; servlet = slt } ∷ []
unfolding put_uri
put-nil uri slt = refl

pub erase-hit :
    (uri : List ℕ) (e : Entry) (es : List Entry)
    → same_uri e.uri uri ≡ true
    → erase_uri uri (e ∷ es) ≡ es
unfolding erase_uri
erase-hit uri e es h = rw h

pub erase-miss :
    (uri : List ℕ) (e : Entry) (es : List Entry)
    → same_uri e.uri uri ≡ false
    → erase_uri uri (e ∷ es) ≡ e ∷ erase_uri uri es
unfolding erase_uri
erase-miss uri e es h = rw h

pub erase-nil : (uri : List ℕ) → erase_uri uri [] ≡ []
unfolding erase_uri
erase-nil uri = refl

-- What stands in the table for `uri` once a servlet is put there.
pub found-put :
    (uri : List ℕ) (slt other : Option ℕ) (es : List Entry)
    → servlet_or (lookup uri (put_uri uri slt es)) other ≡ slt
found-put uri slt other [] = rw (put-nil uri slt) (
    ap (λ o. servlet_or o other)
      (lookup-hit uri (record { uri = uri; servlet = slt }) [] (same_uri_refl uri)))
found-put uri slt other (e ∷ es) = elim (Bool-cases (same_uri e.uri uri)) [
  | inl h ↦
      rw (put-hit uri slt e es h)
        (ap (λ o. servlet_or o other) (lookup-hit uri (record e { servlet = slt }) es h))
  | inr h ↦
      rw (put-miss uri slt e es h, lookup-miss uri e (put_uri uri slt es) h)
        (found-put uri slt other es)
]

-- Other names are not touched.
pub other-put :
    (uri v : List ℕ) (slt other : Option ℕ) (es : List Entry)
    → same_uri uri v ≡ false
    → servlet_or (lookup v (put_uri uri slt es)) other ≡ servlet_or (lookup v es) other
other-put uri v slt other [] apart =
    rw (put-nil uri slt)
      (ap (λ o. servlet_or o other) (lookup-miss v (record { uri = uri; servlet = slt }) [] apart))
other-put uri v slt other (e ∷ es) apart = elim (Bool-cases (same_uri e.uri uri)) [
  | inl h ↦
      let away : same_uri e.uri v ≡ false =
        ap (λ u. same_uri u v) (same_uri-eq e.uri uri h) ∙ apart in
      rw (put-hit uri slt e es h) (
        ap (λ o. servlet_or o other)
          (lookup-miss v (record e { servlet = slt }) es away ∙ sym (lookup-miss v e es away)))
  | inr h ↦ elim (Bool-cases (same_uri e.uri v)) [
    | inl k ↦
        rw (put-miss uri slt e es h, lookup-hit v e (put_uri uri slt es) k, lookup-hit v e es k)
          refl
    | inr k ↦
        rw (put-miss uri slt e es h, lookup-miss v e (put_uri uri slt es) k, lookup-miss v e es k)
          (other-put uri v slt other es apart)
  ]
]
