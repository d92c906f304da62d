-- ===== src/Loggers/Setup.antt =====
-- captain/log.cpp: the definitions of loggers in the configuration, and `LogIniter`, which applies them.
-- A `std::set<LogDefine>` is a list of definitions; two of one name are the same element.
use server_framework.Base.{
  ℕ, Bool, true, false, ◌==◌, ◌&&◌, if◌then◌else◌, Option, none, some, List, [], ◌∷◌, Outcome, ok,
  fail, null_pointer, ◌>>=◌,
}
use server_framework.Log.{Formatter, init}
use server_framework.Loggers.{
  Level, unknow, number, same_text, file, stdout, Appender, new_appender, set_formatter, Logger,
  set_pattern, add_appender, clear_appenders, set_level, Loggers, put_logger, get_logger,
}

pub record LogAppenderDefine : Type 0 where
  pub type_of : ℕ
  pub level : Level
  pub formatter : List ℕ
  pub file_of : List ℕ

pub record LogDefine : Type 0 where
  pub name : List ℕ
  pub level : Level
  pub formatter : List ℕ
  pub appenders : List LogAppenderDefine

unfoldable pub same_appender : LogAppenderDefine → LogAppenderDefine → Bool
same_appender a b =
    (a.type_of == b.type_of)
    && (number a.level == number b.level)
    && same_text a.formatter b.formatter
    && same_text a.file_of b.file_of

unfoldable pub same_appenders : List LogAppenderDefine → List LogAppenderDefine → Bool
same_appenders [] [] = true
same_appenders [] (b ∷ bs) = false
same_appenders (a ∷ more) [] = false
same_appenders (a ∷ more) (b ∷ bs) = same_appender a b && same_appenders more bs

-- `operator==`: it compares the appenders with themselves.
unfoldable pub same_define : LogDefine → LogDefine → Bool
same_define a b =
    same_text a.name b.name
    && (number a.level == number b.level)
    && same_text a.formatter b.formatter
    && same_appenders a.appenders a.appenders

-- `find` in the set, which is ordered by the names.
unfoldable pub find_define : List ℕ → List LogDefine → Option LogDefine
find_define name [] = none
find_define name (d ∷ ds) =
    let rest = find_define name ds in if same_text d.name name then some d else rest

-- The new appender of a definition: a pointer that stays null is `none`.
unfoldable pub made_appender : LogAppenderDefine → Option Appender
made_appender a =
    if a.type_of == 1
    then some (new_appender (file a.file_of))
    else (if a.type_of == 2 then some (new_appender stdout) else none)

abbrev pub with_format : Appender → Formatter → Appender
with_format ap f = if f.error then ap else set_formatter ap (some f)

abbrev pub give_format : Appender → List ℕ → Outcome Appender
give_format ap [] = ok ap
give_format ap (c ∷ cs) = init (c ∷ cs) >>= λ f. ok (with_format ap f)

abbrev pub give_level : Option Appender → Level → Outcome Appender
give_level none level = fail null_pointer
give_level (some ap) level = ok (record ap { level = level })

unfoldable pub append_define : Logger → LogAppenderDefine → Outcome Logger
append_define l a = do
  leveled ← give_level (made_appender a) a.level
  ready ← give_format leveled a.formatter
  ok (add_appender l ready)

unfoldable pub append_all : Logger → List LogAppenderDefine → Outcome Logger
append_all l [] = ok l
append_all l (a ∷ more) = append_define l a >>= λ m. append_all m more

abbrev pub give_pattern : Logger → List ℕ → Outcome Logger
give_pattern l [] = ok l
give_pattern l (c ∷ cs) = set_pattern l (c ∷ cs)

-- The logger that the listener looks up: none where the definition stays as it was.
abbrev pub looked_up : Loggers → LogDefine → Option LogDefine → Outcome (Logger × Loggers)
looked_up ls d none = get_logger ls d.name
looked_up ls d (some e) = if same_define d e then fail null_pointer else get_logger ls d.name

-- The first loop of the listener, for one definition.
unfoldable pub apply_define : List LogDefine → Loggers → LogDefine → Outcome Loggers
apply_define old ls d = do
  (l, kept) ← looked_up ls d (find_define d.name old)
  formed ← give_pattern (set_level l d.level) d.formatter
  full ← append_all (clear_appenders formed) d.appenders
  ok (put_logger full kept)

unfoldable pub apply_all : List LogDefine → Loggers → List LogDefine → Outcome Loggers
apply_all old ls [] = ok ls
apply_all old ls (d ∷ ds) = apply_define old ls d >>= λ ms. apply_all old ms ds

abbrev pub silence : Loggers → LogDefine → Outcome Loggers
silence ls d =
    get_logger ls d.name >>= λ r. ok (put_logger (clear_appenders (set_level r.0 unknow)) r.1)

-- The second loop: a logger that is no longer defined.
unfoldable pub remove_all : List LogDefine → Loggers → List LogDefine → Outcome Loggers
remove_all new ls [] = ok ls
remove_all new ls (d ∷ ds) = elim (find_define d.name new) [
  | none ↦ silence ls d >>= λ ms. remove_all new ms ds
  | some e ↦ remove_all new ls ds
]

-- The listener of `LogIniter`.
unfoldable pub on_change : List LogDefine → List LogDefine → Loggers → Outcome Loggers
on_change old new ls = apply_all old ls new >>= λ ms. remove_all new ms old
