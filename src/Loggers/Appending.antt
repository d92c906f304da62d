-- ===== src/Loggers/Appending.antt =====
-- What a definition's appenders come to on a logger.
use server_framework.Base.{
  append-nil, ℕ, ◌≡◌, refl, sym, ap, ◌∙◌, Bool-cases, ◌==◌, ◌⊎◌, inl, inr, if◌then◌else◌, Option,
  none, some, List, [], ◌∷◌, ◌++◌, All, All-append, ok,
}
use server_framework.Log.{Formatter}
use server_framework.Log.Parsing.{init_ends}
use server_framework.Loggers.{
  Level, Target, file, stdout, Appender, new_appender, set_formatter, Logger, add_appender,
  or_formatter,
}
use server_framework.Loggers.Setup.{
  LogAppenderDefine, made_appender, with_format, give_format, append_define, append_all,
}

-- The appender can write: it has a formatter.
abbrev pub CanWrite : Appender → Type 0
CanWrite a = (f : Formatter) × (a.formatter ≡ some f)

abbrev pub IsReady : Logger → Type 0
IsReady l = All CanWrite l.appenders

abbrev pub IsKnown : LogAppenderDefine → Type 0
IsKnown a = (a.type_of ≡ 1) ⊎ (a.type_of ≡ 2)

-- Where an appender writes, and from which level on.
abbrev pub kind_of : Appender → Target × Level
kind_of a = (a.target, a.level)

abbrev pub kinds_of : List Appender → List (Target × Level)
kinds_of [] = []
kinds_of (a ∷ more) = kind_of a ∷ kinds_of more

abbrev pub wanted : LogAppenderDefine → Target × Level
wanted a = (if a.type_of == 1 then file a.file_of else stdout, a.level)

abbrev pub all_wanted : List LogAppenderDefine → List (Target × Level)
all_wanted [] = []
all_wanted (a ∷ more) = wanted a ∷ all_wanted more

-- Two loggers that differ in their appenders only.
abbrev pub SameBut : Logger → Logger → Type 0
SameBut l m = (m.name ≡ l.name) × (m.level ≡ l.level) × (m.formatter ≡ l.formatter)

kinds_of-append : (xs ys : List Appender) → kinds_of (xs ++ ys) ≡ kinds_of xs ++ kinds_of ys
kinds_of-append [] ys = refl
kinds_of-append (x ∷ xs) ys = ap (◌∷◌ (kind_of x)) (kinds_of-append xs ys)

append_cons {ℓ} :
    {A : Type ℓ} (xs : List A) (y : A) (zs : List A) → (xs ++ y ∷ []) ++ zs ≡ xs ++ y ∷ zs
append_cons [] y zs = refl
append_cons (x ∷ xs) y zs = ap (◌∷◌ x) (append_cons xs y zs)

with_format_kind : (a : Appender) (f : Formatter) → kind_of (with_format a f) ≡ kind_of a
unfolding set_formatter
with_format_kind a f = elim (Bool-cases f.error) [ inl e ↦ rw e refl | inr e ↦ rw e refl ]

give_format_ends :
    (a : Appender) (pattern : List ℕ)
    → (b : Appender) × (give_format a pattern ≡ ok b) × (kind_of b ≡ kind_of a)
give_format_ends a [] = (a, refl, refl)
give_format_ends a (c ∷ cs) =
    let (f, e, same) = init_ends (c ∷ cs) in (with_format a f, rw e refl, with_format_kind a f)

made_known :
    (a : LogAppenderDefine)
    → IsKnown a
    → (b : Appender) × (made_appender a ≡ some b) × (b.target ≡ (wanted a).0)
unfolding made_appender
made_known a (inl e) = (new_appender (file a.file_of), rw e refl, rw e refl)
made_known a (inr e) = (new_appender stdout, rw e refl, rw e refl)

or_formatter-some :
    (o : Option Formatter) (f : Formatter) → (g : Formatter) × (or_formatter o f ≡ some g)
or_formatter-some none f = (f, refl)
or_formatter-some (some g) f = (g, refl)

pub add_appender-IsReady : (l : Logger) (a : Appender) → IsReady l → IsReady (add_appender l a)
unfolding add_appender
add_appender-IsReady l a h =
    All-append CanWrite l.appenders
      (record a { formatter = or_formatter a.formatter l.formatter } ∷ []) h
      (or_formatter-some a.formatter l.formatter, tt)

-- One appender more, as the definition wants it.
append_define_ends :
    (l : Logger) (a : LogAppenderDefine)
    → IsKnown a
    → IsReady l
    → (m : Logger) × (append_define l a ≡ ok m)
      × SameBut l m
      × IsReady m
      × (kinds_of m.appenders ≡ kinds_of l.appenders ++ wanted a ∷ [])
unfolding append_define add_appender
append_define_ends l a known h =
    let (b, made, target) = made_known a known in
    let (c, formed, kind) = give_format_ends (record b { level = a.level }) a.formatter in
    (
      add_appender l c,
      rw (made, formed) refl,
      (refl, refl, refl),
      add_appender-IsReady l c h,
      kinds_of-append l.appenders
            (record c { formatter = or_formatter c.formatter l.formatter } ∷ [])
          ∙ ap (λ k. kinds_of l.appenders ++ k ∷ []) (kind ∙ ap (λ t. (t, a.level)) target),
    )

pub append_all_ends :
    (l : Logger) (ds : List LogAppenderDefine)
    → All IsKnown ds
    → IsReady l
    → (m : Logger) × (append_all l ds ≡ ok m)
      × SameBut l m
      × IsReady m
      × (kinds_of m.appenders ≡ kinds_of l.appenders ++ all_wanted ds)
unfolding append_all
append_all_ends l [] known h =
    (l, refl, (refl, refl, refl), h, sym (append-nil (kinds_of l.appenders)))
append_all_ends l (a ∷ more) known h =
    let (m, e, same, ready, kinds) = append_define_ends l a known.0 h in
    let (n, e', same', ready', kinds') = append_all_ends m more known.1 ready in
    (
      n,
      rw e e',
      (same'.0 ∙ same.0, same'.1 ∙ same.1, same'.2 ∙ same.2),
      ready',
      kinds'
          ∙ ap (λ k. k ++ all_wanted more) kinds
          ∙ append_cons (kinds_of l.appenders) (wanted a) (all_wanted more),
    )
