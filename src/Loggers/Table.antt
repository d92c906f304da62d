-- ===== src/Loggers/Table.antt =====
-- The table of loggers as a map from names.
use server_framework.Base.{
  ℕ, ◌≡◌, refl, sym, ap, ◌∙◌, subst, true, false, Bool-cases, ◌==◌, ◌&&◌, eq→==, ==→eq,
  if◌then◌else◌, some, List, [], ◌∷◌, inl, inr,
}
use server_framework.Loggers.{same_text, Logger, Loggers, find_logger, put_logger}

pub same_text_refl : (s : List ℕ) → same_text s s ≡ true
unfolding same_text
same_text_refl [] = refl
same_text_refl (c ∷ cs) = rw (eq→== c c refl) (same_text_refl cs)

pub same_text→eq : (s t : List ℕ) → same_text s t ≡ true → s ≡ t
unfolding same_text
same_text→eq [] [] h = refl
same_text→eq [] (d ∷ ds) h = cc
same_text→eq (c ∷ cs) [] h = cc
same_text→eq (c ∷ cs) (d ∷ ds) h = elim (Bool-cases (c == d)) [
  | inl e ↦
      let rest : same_text cs ds ≡ true = sym (ap (λ b. b && same_text cs ds) e) ∙ h in
      let head : c ≡ d = ==→eq c d e in
      let tail : cs ≡ ds = same_text→eq cs ds rest in rw (head, tail) refl
  | inr e ↦ let impossible : false ≡ true = sym (ap (λ b. b && same_text cs ds) e) ∙ h in cc
]

pub find-put_logger : (l : Logger) (ls : Loggers) → find_logger l.name (put_logger l ls) ≡ some l
unfolding find_logger put_logger
find-put_logger l [] = rw (same_text_refl l.name) refl
find-put_logger l (k ∷ ls) = elim (Bool-cases (same_text k.name l.name)) [
  | inl e ↦ rw (e, same_text_refl l.name) refl
  | inr e ↦ rw (e, e) (find-put_logger l ls)
]

pub find_other :
    (l : Logger) (ls : Loggers) (name : List ℕ)
    → same_text l.name name ≡ false
    → find_logger name (put_logger l ls) ≡ find_logger name ls
unfolding find_logger put_logger
find_other l [] name h = rw h refl
find_other l (k ∷ ls) name h = elim (Bool-cases (same_text k.name l.name)) [
  | inl e ↦
      let other : same_text k.name name ≡ false =
        subst (λ s. same_text s name ≡ false) (sym (same_text→eq k.name l.name e)) h in
      rw (e, h, other) refl
  | inr e ↦ rw e (ap (λ r. if same_text k.name name then some k else r) (find_other l ls name h))
]
