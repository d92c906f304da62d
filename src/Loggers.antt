-- ===== src/Loggers.antt =====
-- captain/log.cpp: the levels, the loggers and their appenders, and the listener that sets them up when
-- the configuration changes.
-- A formatter never changes, so a pointer to one is the formatter, or `none`. The map of loggers is
-- a list. What an appender writes to (a file, the standard output) is not modelled, only what is
-- given to it.
mod Levels
mod Setup
mod Table
mod Appending
mod Change
mod Unchanged
mod Writing
mod Examples
use server_framework.Base.{
  ℕ, suc, ◌+◌, Bool, true, false, leb, ◌==◌, ◌&&◌, if◌then◌else◌, Option, none, some, List, [], ◌∷◌,
  ◌++◌, Outcome, ok, fail, null_pointer, ◌>>=◌,
}
use server_framework.Log.{Formatter, init}

pub data Level : Type 0 where
  unknow debug info warn error fatal : Level

-- The numbers of the enumeration.
abbrev pub number : Level → ℕ
number unknow = 0
number debug = 1
number info = 2
number warn = 3
number error = 4
number fatal = 5

-- `operator==` of `std::string`.
pub same_text : List ℕ → List ℕ → Bool
same_text [] [] = true
same_text [] (y ∷ ys) = false
same_text (x ∷ xs) [] = false
same_text (x ∷ xs) (y ∷ ys) = (x == y) && same_text xs ys

-- `LogLevel::ToString`
pub to_string : Level → List ℕ
to_string debug = 68 ∷ 69 ∷ 66 ∷ 85 ∷ 71 ∷ []
to_string info = 73 ∷ 78 ∷ 70 ∷ 79 ∷ []
to_string warn = 87 ∷ 65 ∷ 82 ∷ 78 ∷ []
to_string error = 69 ∷ 82 ∷ 82 ∷ 79 ∷ 82 ∷ []
to_string fatal = 70 ∷ 65 ∷ 84 ∷ 65 ∷ 76 ∷ []
to_string unknow = 85 ∷ 78 ∷ 75 ∷ 78 ∷ 79 ∷ 87 ∷ []

abbrev pub lower_case : List (List ℕ × Level)
lower_case =
    (100 ∷ 101 ∷ 98 ∷ 117 ∷ 103 ∷ [], debug)
    ∷ (105 ∷ 110 ∷ 102 ∷ 111 ∷ [], info)
    ∷ (119 ∷ 97 ∷ 114 ∷ 110 ∷ [], warn)
    ∷ (101 ∷ 114 ∷ 114 ∷ 111 ∷ 114 ∷ [], error)
    ∷ (102 ∷ 97 ∷ 116 ∷ 97 ∷ 108 ∷ [], fatal)
    ∷ []

abbrev pub upper_case : List (List ℕ × Level)
upper_case =
    (68 ∷ 69 ∷ 66 ∷ 85 ∷ 71 ∷ [], debug)
    ∷ (73 ∷ 78 ∷ 70 ∷ 79 ∷ [], info)
    ∷ (87 ∷ 65 ∷ 82 ∷ 78 ∷ [], warn)
    ∷ (69 ∷ 82 ∷ 82 ∷ 79 ∷ 82 ∷ [], error)
    ∷ (70 ∷ 65 ∷ 84 ∷ 65 ∷ 76 ∷ [], fatal)
    ∷ []

pub level_of : List (List ℕ × Level) → List ℕ → Level
level_of [] s = unknow
level_of (p ∷ ps) s = let rest = level_of ps s in if same_text s p.0 then p.1 else rest

-- `LogLevel::FromString`
pub from_string : List ℕ → Level
from_string = level_of (lower_case ++ upper_case)

-- `FileLogAppender` of a file, or `StdoutLogAppender`.
pub data Target : Type 0 where
  file : List ℕ → Target
  stdout : Target

pub record Appender : Type 0 where
  pub target : Target
  pub level : Level
  pub has_formatter : Bool
  pub formatter : Option Formatter

abbrev pub new_appender : Target → Appender
new_appender target = record {
  target = target;
  level = debug;
  has_formatter = false;
  formatter = none;
}

-- `LogAppender::setFormatter`
pub set_formatter : Appender → Option Formatter → Appender
set_formatter a none = record a { formatter = none; has_formatter = false }
set_formatter a (some f) = record a { formatter = some f; has_formatter = true }

pub record Logger : Type 0 where
  pub name : List ℕ
  pub level : Level
  pub formatter : Formatter
  pub appenders : List Appender
  pub has_root : Bool

abbrev pub default_pattern : List ℕ
default_pattern =
    37 ∷ 100 ∷ 123 ∷ 37 ∷ 89 ∷ 45 ∷ 37 ∷ 109 ∷ 45 ∷ 37 ∷ 100 ∷ 32 ∷ 37 ∷ 72 ∷ 58 ∷ 37 ∷ 77 ∷ 58 ∷ 37
    ∷ 83 ∷ 125 ∷ 37 ∷ 84 ∷ 37 ∷ 116 ∷ 37 ∷ 84 ∷ 37 ∷ 78 ∷ 37 ∷ 84 ∷ 37 ∷ 70 ∷ 37 ∷ 84 ∷ 91 ∷ 37
    ∷ 112 ∷ 93 ∷ 37 ∷ 84 ∷ 91 ∷ 37 ∷ 99 ∷ 93 ∷ 37 ∷ 84 ∷ 37 ∷ 102 ∷ 58 ∷ 37 ∷ 108 ∷ 37 ∷ 84 ∷ 37
    ∷ 109 ∷ 37 ∷ 110 ∷ []

-- `Logger(name)`; `getLogger` sets `m_root` behind it.
pub new_logger : List ℕ → Bool → Outcome Logger
new_logger name has_root = init default_pattern >>= λ f.
    ok (record { name = name; level = debug; formatter = f; appenders = []; has_root = has_root })

-- The logger's formatter goes to the appenders that have none of their own.
abbrev pub inherit : Formatter → Appender → Appender
inherit f a = if a.has_formatter then a else record a { formatter = some f }

abbrev pub inherit_all : Formatter → List Appender → List Appender
inherit_all f [] = []
inherit_all f (a ∷ more) = inherit f a ∷ inherit_all f more

-- `setFormatter(LogFormatter::ptr)` of a logger.
pub set_logger_formatter : Logger → Formatter → Logger
set_logger_formatter l f = record l { formatter = f; appenders = inherit_all f l.appenders }

-- `setFormatter(const std::string&)`
pub set_pattern : Logger → List ℕ → Outcome Logger
set_pattern l pattern = init pattern >>= λ f. ok (if f.error then l else set_logger_formatter l f)

abbrev pub or_formatter : Option Formatter → Formatter → Option Formatter
or_formatter none f = some f
or_formatter (some g) f = some g

pub add_appender : Logger → Appender → Logger
add_appender l a = record l {
  appenders = l.appenders ++ record a { formatter = or_formatter a.formatter l.formatter } ∷ [];
}

pub clear_appenders : Logger → Logger
clear_appenders l = record l { appenders = [] }

abbrev pub set_level : Logger → Level → Logger
set_level l level = record l { level = level }

-- The appenders that write an event of this level.
abbrev pub writing : Level → List Appender → List Appender
writing level [] = []
writing level (a ∷ more) =
    let rest = writing level more in if leb (number a.level) (number level) then a ∷ rest else rest

abbrev pub log_here : Logger → Level → List Appender
log_here l level = if leb (number l.level) (number level) then writing level l.appenders else []

abbrev pub log_at : Logger → Logger → Level → List Appender → List Appender
log_at root l level [] = if l.has_root then log_here root level else []
log_at root l level (a ∷ more) = writing level (a ∷ more)

-- `Logger::log`: the appenders that write the event. The root logger has no root of its own.
pub log : Logger → Logger → Level → List Appender
log root l level =
    let here = log_at root l level l.appenders in
    if leb (number l.level) (number level) then here else []

-- `m_loggers`
abbrev pub Loggers : Type 0
Loggers = List Logger

pub find_logger : List ℕ → Loggers → Option Logger
find_logger name [] = none
find_logger name (l ∷ ls) =
    let rest = find_logger name ls in if same_text l.name name then some l else rest

-- The logger of this name, changed; the objects of the others stay.
pub put_logger : Logger → Loggers → Loggers
put_logger l [] = l ∷ []
put_logger l (k ∷ ls) =
    let rest = put_logger l ls in if same_text k.name l.name then l ∷ ls else k ∷ rest

abbrev pub found_or_new : Option Logger → List ℕ → Outcome Logger
found_or_new none name = new_logger name true
found_or_new (some l) name = ok l

-- `LoggerManager::getLogger`
pub get_logger : Loggers → List ℕ → Outcome (Logger × Loggers)
get_logger ls name = found_or_new (find_logger name ls) name >>= λ l. ok (l, put_logger l ls)
