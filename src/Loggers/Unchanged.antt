-- ===== src/Loggers/Unchanged.antt =====
-- The listener ends at the first definition that stays as it was.
use server_framework.Base.{
  ℕ, ◌≡◌, refl, sym, ap, eq→==, if◌then◌else◌, ◌∙◌, true, Bool-cases, ◌⊎◌, inl, inr, Option, none,
  some, List, [], ◌∷◌, ◌++◌, Outcome, ok, fail, null_pointer, ◌>>=◌,
}
use server_framework.Log.Parsing.{init_ends}
use server_framework.Loggers.Table.{same_text→eq, same_text_refl}
use server_framework.Loggers.{
  number, same_text, Level, Appender, Logger, clear_appenders, set_level, add_appender, Loggers,
  put_logger, get_logger,
}
use server_framework.Loggers.Setup.{
  LogAppenderDefine, LogDefine, same_appender, same_appenders, same_define, find_define,
  made_appender, give_level, give_format, with_format, append_define, append_all, give_pattern,
  looked_up, apply_define, apply_all, remove_all, on_change,
}
use server_framework.Loggers.Change.{get_logger_ends, give_pattern_ends}

-- A call that comes to a value, or follows a null pointer.
abbrev Ends {ℓ} : {A : Type ℓ} → Outcome A → Type ℓ
Ends {A} m = ((a : A) × (m ≡ ok a)) ⊎ (m ≡ fail null_pointer)

Ends-then {ℓ κ} :
    {A : Type ℓ} {B : Type κ} (m : Outcome A) (f : A → Outcome B)
    → Ends m
    → ((a : A) → Ends (f a))
    → Ends (m >>= f)
Ends-then m f (inl (a, e)) h = elim (h a) [
  | inl r ↦ inl (r.0, ap (λ m. m >>= f) e ∙ r.1)
  | inr r ↦ inr (ap (λ m. m >>= f) e ∙ r)
]
Ends-then m f (inr e) h = inr (ap (λ m. m >>= f) e)

give_level-Ends : (o : Option Appender) (level : Level) → Ends (give_level o level)
give_level-Ends none level = inr refl
give_level-Ends (some a) level = inl (record a { level = level }, refl)

give_format-Ends : (a : Appender) (pattern : List ℕ) → Ends (give_format a pattern)
give_format-Ends a [] = inl (a, refl)
give_format-Ends a (c ∷ cs) =
    let (f, e, same) = init_ends (c ∷ cs) in inl (with_format a f, rw e refl)

append_define-Ends : (l : Logger) (a : LogAppenderDefine) → Ends (append_define l a)
unfolding append_define
append_define-Ends l a =
    Ends-then (give_level (made_appender a) a.level)
      (λ leveled. give_format leveled a.formatter >>= λ ready. ok (add_appender l ready))
      (give_level-Ends (made_appender a) a.level)
      (λ leveled.
        Ends-then (give_format leveled a.formatter) (λ ready. ok (add_appender l ready))
          (give_format-Ends leveled a.formatter) (λ ready. inl (add_appender l ready, refl)))

append_all-Ends : (l : Logger) (ds : List LogAppenderDefine) → Ends (append_all l ds)
unfolding append_all
append_all-Ends l [] = inl (l, refl)
append_all-Ends l (a ∷ more) =
    Ends-then (append_define l a) (λ m. append_all m more) (append_define-Ends l a)
      (λ m. append_all-Ends m more)

get_logger-Ends : (ls : Loggers) (name : List ℕ) → Ends (get_logger ls name)
get_logger-Ends ls name =
    let (l, e, from) = get_logger_ends ls name in inl ((l, put_logger l ls), e)

looked_up-Ends : (ls : Loggers) (d : LogDefine) (o : Option LogDefine) → Ends (looked_up ls d o)
looked_up-Ends ls d none = get_logger-Ends ls d.name
looked_up-Ends ls d (some e) = elim (Bool-cases (same_define d e)) [
  | inl h ↦ inr (rw h refl)
  | inr h ↦ rw h (get_logger-Ends ls d.name)
]

apply_define-Ends :
    (old : List LogDefine) (ls : Loggers) (d : LogDefine) → Ends (apply_define old ls d)
unfolding apply_define
apply_define-Ends old ls d =
    Ends-then (looked_up ls d (find_define d.name old)) _
      (looked_up-Ends ls d (find_define d.name old))
      (λ r.
        let (formed, patterned, name, level) =
          give_pattern_ends (set_level r.0 d.level) d.formatter in
        Ends-then (give_pattern (set_level r.0 d.level) d.formatter) _ (inl (formed, patterned))
          (λ formed.
            Ends-then (append_all (clear_appenders formed) d.appenders) _
              (append_all-Ends (clear_appenders formed) d.appenders)
              (λ full. inl (put_logger full r.1, refl))))

unchanged_fails :
    (old : List LogDefine) (ls : Loggers) (d e : LogDefine)
    → find_define d.name old ≡ some e
    → same_define d e ≡ true
    → apply_define old ls d ≡ fail null_pointer
unfolding apply_define
unchanged_fails old ls d e found same = rw (found, same) refl

apply_all_fails :
    (old before after : List LogDefine) (ls : Loggers) (d e : LogDefine)
    → find_define d.name old ≡ some e
    → same_define d e ≡ true
    → apply_all old ls (before ++ d ∷ after) ≡ fail null_pointer
unfolding apply_all
apply_all_fails old [] after ls d e found same =
    ap (λ m. m >>= λ ms. apply_all old ms after) (unchanged_fails old ls d e found same)
apply_all_fails old (b ∷ before) after ls d e found same = elim (apply_define-Ends old ls b) [
  | inl (ms, ran) ↦
      ap (λ m. m >>= λ ms. apply_all old ms (before ++ d ∷ after)) ran
      ∙ apply_all_fails old before after ms d e found same
  | inr failed ↦ ap (λ m. m >>= λ ms. apply_all old ms (before ++ d ∷ after)) failed
]

same_appender_refl : (a : LogAppenderDefine) → same_appender a a ≡ true
unfolding same_appender
same_appender_refl a =
    rw
      (
        eq→== a.type_of a.type_of refl,
        eq→== (number a.level) (number a.level) refl,
        same_text_refl a.formatter,
        same_text_refl a.file_of,
      )
      refl

same_appenders_refl : (l : List LogAppenderDefine) → same_appenders l l ≡ true
unfolding same_appenders
same_appenders_refl [] = refl
same_appenders_refl (a ∷ more) = rw (same_appender_refl a, same_appenders_refl more) refl

find_define_name :
    (name : List ℕ) (ds : List LogDefine) (e : LogDefine)
    → find_define name ds ≡ some e
    → e.name ≡ name
unfolding find_define
find_define_name name [] e h = cc
find_define_name name (d ∷ ds) e h = elim (Bool-cases (same_text d.name name)) [
  | inl k ↦
      let same : d ≡ e = cc (sym (ap (λ b. if b then some d else find_define name ds) k) ∙ h) in
      ap (λ (d : LogDefine). d.name) (sym same) ∙ same_text→eq d.name name k
  | inr k ↦
      find_define_name name ds e (sym (ap (λ b. if b then some d else find_define name ds) k) ∙ h)
]

-- Whatever the appenders are, which `operator==` does not compare.
unchanged-same_define :
    (d e : LogDefine)
    → e.name ≡ d.name
    → e.level ≡ d.level
    → e.formatter ≡ d.formatter
    → same_define d e ≡ true
unfolding same_define
unchanged-same_define d e name level formatter =
    rw
      (
        name,
        level,
        formatter,
        same_text_refl d.name,
        eq→== (number d.level) (number d.level) refl,
        same_text_refl d.formatter,
        same_appenders_refl d.appenders,
      )
      refl

-- The listener of the configuration follows a null pointer whenever the new definitions hold
-- one whose level and pattern are the same as before, whatever its appenders are.
pub on_change_unchanged :
    (old before after : List LogDefine) (ls : Loggers) (d e : LogDefine)
    → find_define d.name old ≡ some e
    → e.level ≡ d.level
    → e.formatter ≡ d.formatter
    → on_change old (before ++ d ∷ after) ls ≡ fail null_pointer
unfolding on_change
on_change_unchanged old before after ls d e found level formatter =
    ap (λ m. m >>= λ ms. remove_all (before ++ d ∷ after) ms old)
      (apply_all_fails old before after ls d e found
        (unchanged-same_define d e (find_define_name d.name old e found) level formatter))
