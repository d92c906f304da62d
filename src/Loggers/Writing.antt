-- ===== src/Loggers/Writing.antt =====
-- Which appenders write an event: from the definition of a logger to the call of `log`.
use server_framework.Base.{
  ◌≡◌, refl, ap, sym, ◌∙◌, Bool-cases, if◌then◌else◌, leb, some, List, [], ◌∷◌, All, inl, inr, ok,
}
use server_framework.Loggers.{
  Level, number, Target, Appender, Logger, writing, log_at, log, Loggers, find_logger,
}
use server_framework.Loggers.Setup.{LogAppenderDefine, LogDefine, apply_define}
use server_framework.Loggers.Appending.{CanWrite, IsReady, IsKnown, kinds_of, wanted, all_wanted}
use server_framework.Loggers.Change.{IsFresh, apply_define-Applied}

-- Of these places to write to, the ones whose level is not above the event's.
abbrev pub taking : Level → List (Target × Level) → List (Target × Level)
taking level [] = []
taking level (k ∷ ks) =
    let rest = taking level ks in if leb (number k.1) (number level) then k ∷ rest else rest

writing-taking :
    (level : Level) (l : List Appender) → kinds_of (writing level l) ≡ taking level (kinds_of l)
writing-taking level [] = refl
writing-taking level (a ∷ more) = elim (Bool-cases (leb (number a.level) (number level))) [
  | inl e ↦ rw e (ap (λ ks. (a.target, a.level) ∷ ks) (writing-taking level more))
  | inr e ↦ rw e (writing-taking level more)
]

writing-CanWrite :
    (level : Level) (l : List Appender) → All CanWrite l → All CanWrite (writing level l)
writing-CanWrite level [] h = tt
writing-CanWrite level (a ∷ more) h = elim (Bool-cases (leb (number a.level) (number level))) [
  | inl e ↦ rw e (h.0, writing-CanWrite level more h.1)
  | inr e ↦ rw e (writing-CanWrite level more h.1)
]

-- A logger with appenders of its own does not hand the event to the root.
own_appenders :
    (root l : Logger) (level : Level) (aps : List Appender) (k : Target × Level)
    (ks : List (Target × Level))
    → kinds_of aps ≡ k ∷ ks
    → log_at root l level aps ≡ writing level aps
own_appenders root l level [] k ks h = cc
own_appenders root l level (a ∷ more) k ks h = refl

-- What is written of an event on a logger of this level with these places to write to.
abbrev pub written : Level → Level → List (Target × Level) → List (Target × Level)
written own level ks = if leb (number own) (number level) then taking level ks else []

log-written :
    (root l : Logger) (level : Level) (k : Target × Level) (ks : List (Target × Level))
    → IsReady l
    → kinds_of l.appenders ≡ k ∷ ks
    → (kinds_of (log root l level) ≡ written l.level level (k ∷ ks))
      × All CanWrite (log root l level)
unfolding log
log-written root l level k ks ready same = elim (Bool-cases (leb (number l.level) (number level))) [
  | inl e ↦
      let own = own_appenders root l level l.appenders k ks same in
      (
        rw (e, own) (writing-taking level l.appenders ∙ ap (taking level) same),
        rw (e, own) (writing-CanWrite level l.appenders ready),
      )
  | inr e ↦ (rw e refl, rw e tt)
]

-- Behind a definition that is new, or whose level or pattern is not what it was, with at least
-- one appender, each a file or the standard output: `log` on the logger that `getLogger` finds
-- writes the event to just the defined appenders whose level is not above the event's, in
-- order, each with a formatter, and to none if the definition's level is above the event's; the
-- root logger is not asked.
pub apply_define-log :
    (old : List LogDefine) (ls : Loggers) (d : LogDefine) (a : LogAppenderDefine)
    (more : List LogAppenderDefine) (root : Logger) (level : Level)
    → IsFresh old d
    → All IsKnown d.appenders
    → d.appenders ≡ a ∷ more
    → (ms : Loggers) × (l : Logger) × (apply_define old ls d ≡ ok ms)
      × (find_logger d.name ms ≡ some l)
      × (kinds_of (log root l level) ≡ written d.level level (all_wanted d.appenders))
      × All CanWrite (log root l level)
apply_define-log old ls d a more root level fresh known some_appender =
    let (ms, run, applied) = apply_define-Applied old ls d fresh known in
    let l = applied.logger in
    let (same, can) =
      log-written root l level (wanted a) (all_wanted more) applied.ready
        (applied.appenders ∙ ap all_wanted some_appender) in
    (
      ms,
      l,
      run,
      applied.found,
      same
          ∙ ap (λ own. written own level (wanted a ∷ all_wanted more)) applied.level
          ∙ ap (λ ds. written d.level level (all_wanted ds)) (sym some_appender),
      can,
    )
