-- ===== src/Loggers/Change.antt =====
-- The listener: a definition that is new or changed is applied, one that is unchanged ends it.
use server_framework.Base.{
  ℕ, ◌≡◌, refl, sym, ap, ◌∙◌, subst, Bool, true, false, Bool-cases, Option-cases, ◌⊎◌, inl, inr,
  ◌==◌, ◌&&◌, if◌then◌else◌, Option, none, some, List, [], ◌∷◌, All, ok,
}
use server_framework.Log.Parsing.{init_ends}
use server_framework.Loggers.{
  number, debug, Logger, default_pattern, same_text, new_logger, set_logger_formatter, set_pattern,
  clear_appenders, set_level, Loggers, find_logger, put_logger, get_logger,
}
use server_framework.Loggers.Table.{same_text→eq, find-put_logger, find_other}
use server_framework.Loggers.Setup.{
  LogDefine, same_define, same_appenders, find_define, give_pattern, looked_up, apply_define,
}
use server_framework.Loggers.Appending.{IsKnown, IsReady, kinds_of, all_wanted, append_all_ends}

new_logger_ends :
    (name : List ℕ) (has_root : Bool)
    → (l : Logger) × (new_logger name has_root ≡ ok l) × (l.name ≡ name)
unfolding new_logger
new_logger_ends name has_root =
    let (f, e, same) = init_ends default_pattern in
    (
      record { name = name; level = debug; formatter = f; appenders = []; has_root = has_root },
      rw e refl,
      refl,
    )

pub get_logger_ends :
    (ls : Loggers) (name : List ℕ)
    → (l : Logger) × (get_logger ls name ≡ ok (l, put_logger l ls))
      × ((find_logger name ls ≡ some l) ⊎ ((find_logger name ls ≡ none) × (l.name ≡ name)))
unfolding get_logger
get_logger_ends ls name = elim (Option-cases (find_logger name ls)) [
  | inl e ↦ let (l, made, same) = new_logger_ends name true in (l, rw (e, made) refl, inr (e, same))
  | inr (l, e) ↦ (l, rw e refl, inl e)
]

pub give_pattern_ends :
    (l : Logger) (pattern : List ℕ)
    → (m : Logger) × (give_pattern l pattern ≡ ok m) × (m.name ≡ l.name) × (m.level ≡ l.level)
unfolding set_pattern set_logger_formatter
give_pattern_ends l [] = (l, refl, refl, refl)
give_pattern_ends l (c ∷ cs) =
    let (f, e, same) = init_ends (c ∷ cs) in
    elim (Bool-cases f.error) [
      | inl bad ↦ (l, rw (e, bad) refl, refl, refl)
      | inr good ↦ (set_logger_formatter l f, rw (e, good) refl, refl, refl)
    ]

find_name :
    (ls : Loggers) (name : List ℕ) (l : Logger)
    → find_logger name ls ≡ some l
    → same_text l.name name ≡ true
unfolding find_logger
find_name [] name l h = cc
find_name (k ∷ ls) name l h = elim (Bool-cases (same_text k.name name)) [
  | inl e ↦
      let same : some k ≡ some l =
        sym (ap (λ b. if b then some k else find_logger name ls) e) ∙ h in
      subst
        (λ (o : Option Logger). elim o as (λ o. Type 0) [
          | none ↦ Unit
          | some m ↦ same_text m.name name ≡ true
        ])
        same e
  | inr e ↦ find_name ls name l (sym (ap (λ b. if b then some k else find_logger name ls) e) ∙ h)
]

-- The definition is new, or its level or pattern is not what it was.
abbrev pub IsFresh : List LogDefine → LogDefine → Type 0
IsFresh old d =
    (find_define d.name old ≡ none)
    ⊎ ((e : LogDefine) × (find_define d.name old ≡ some e)
        × (((number d.level == number e.level) && same_text d.formatter e.formatter) ≡ false))

one-false : (n l f a : Bool) → (l && f) ≡ false → (n && l && f && a) ≡ false
one-false false l f a h = refl
one-false true false f a h = refl
one-false true true false a h = refl
one-false true true true a h = cc

changed-same_define :
    (d e : LogDefine)
    → ((number d.level == number e.level) && same_text d.formatter e.formatter) ≡ false
    → same_define d e ≡ false
unfolding same_define
changed-same_define d e h =
    one-false (same_text d.name e.name) (number d.level == number e.level)
      (same_text d.formatter e.formatter) (same_appenders d.appenders d.appenders) h

fresh_looked_up :
    (old : List LogDefine) (ls : Loggers) (d : LogDefine)
    → IsFresh old d
    → looked_up ls d (find_define d.name old) ≡ get_logger ls d.name
fresh_looked_up old ls d (inl e) = rw e refl
fresh_looked_up old ls d (inr (e, found, other)) = rw (found, changed-same_define d e other) refl

-- What the table of loggers holds behind the definition.
pub record Applied (ls ms : Loggers) (d : LogDefine) : Type 0 where
  pub logger : Logger
  pub found : find_logger d.name ms ≡ some logger
  pub level : logger.level ≡ d.level
  pub ready : IsReady logger
  pub appenders : kinds_of logger.appenders ≡ all_wanted d.appenders
  pub others :
      (name : List ℕ) → same_text d.name name ≡ false → find_logger name ms ≡ find_logger name ls

named :
    (ls : Loggers) (name : List ℕ) (l : Logger)
    → (find_logger name ls ≡ some l) ⊎ ((find_logger name ls ≡ none) × (l.name ≡ name))
    → l.name ≡ name
named ls name l (inl e) = same_text→eq l.name name (find_name ls name l e)
named ls name l (inr e) = e.1

pub apply_define-Applied :
    (old : List LogDefine) (ls : Loggers) (d : LogDefine)
    → IsFresh old d
    → All IsKnown d.appenders
    → (ms : Loggers) × (apply_define old ls d ≡ ok ms) × Applied ls ms d
unfolding apply_define clear_appenders
apply_define-Applied old ls d fresh known =
    let (l, got, where_from) = get_logger_ends ls d.name in
    let name : l.name ≡ d.name = named ls d.name l where_from in
    let (formed, patterned, name', level) = give_pattern_ends (set_level l d.level) d.formatter in
    let (full, appended, same, ready, kinds) =
      append_all_ends (clear_appenders formed) d.appenders known tt in
    let full_name : full.name ≡ d.name = same.0 ∙ name' ∙ name in
    (
      put_logger full (put_logger l ls),
      rw (fresh_looked_up old ls d fresh, got, patterned, appended) refl,
      record {
        logger = full;
        found =
            subst (λ n. find_logger n (put_logger full (put_logger l ls)) ≡ some full) full_name
              (find-put_logger full (put_logger l ls));
        level = same.1 ∙ level;
        ready = ready;
        appenders = kinds;
        others = λ other h.
            find_other full (put_logger l ls) other
              (subst (λ n. same_text n other ≡ false) (sym full_name) h)
            ∙ find_other l ls other (subst (λ n. same_text n other ≡ false) (sym name) h);
      },
    )
