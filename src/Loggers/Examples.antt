-- ===== src/Loggers/Examples.antt =====
-- Loggers set up and written to.
use server_framework.Base.{
  ◌≡◌, refl, false, ◌==◌, ◌&&◌, some, [], ◌∷◌, ◌++◌, All, ok, fail, null_pointer, inr,
}
use server_framework.Log.{Formatter}
use server_framework.Loggers.{
  info, warn, debug, stdout, same_text, number, find_logger, Logger, Loggers, log,
}
use server_framework.Loggers.Setup.{LogDefine, find_define, apply_define, on_change}
use server_framework.Loggers.Unchanged.{on_change_unchanged}
use server_framework.Loggers.Writing.{written, apply_define-log}
use server_framework.Loggers.Appending.{CanWrite, kinds_of, all_wanted}

abbrev system : LogDefine
system = record {
  name = 115 ∷ 121 ∷ [];
  level = info;
  formatter = 37 ∷ 109 ∷ [];
  appenders =
      record { type_of = 2; level = warn; formatter = []; file_of = [] }
      ∷ record { type_of = 1; level = debug; formatter = 37 ∷ 110 ∷ []; file_of = 47 ∷ [] }
      ∷ [];
}

-- The same definition with other appenders counts as unchanged.
abbrev system_silent : LogDefine
system_silent = record system { appenders = [] }

system_found : find_define system_silent.name (system ∷ []) ≡ some system
unfolding find_define same_text
system_found = refl

on_change_unchanged_example :
    on_change (system ∷ []) ([] ++ system_silent ∷ []) [] ≡ fail null_pointer
on_change_unchanged_example =
    on_change_unchanged (system ∷ []) [] [] [] system_silent system system_found refl refl

-- The same with another level.
abbrev louder : LogDefine
louder = record {
  name = system.name;
  level = debug;
  formatter = system.formatter;
  appenders = record { type_of = 2; level = warn; formatter = []; file_of = [] } ∷ [];
}

louder_found : find_define louder.name (system ∷ []) ≡ some system
unfolding find_define same_text
louder_found = refl

louder_changed :
    ((number louder.level == number system.level) && same_text louder.formatter system.formatter)
    ≡ false
louder_changed = refl

abbrev plain_format : Formatter
plain_format = record { pattern = 37 ∷ 109 ∷ []; items = []; error = false }

abbrev screen : Logger
screen = record {
  name = 114 ∷ [];
  level = info;
  formatter = plain_format;
  appenders =
      record { target = stdout; level = warn; has_formatter = false; formatter = some plain_format }
      ∷ [];
  has_root = false;
}

apply_define-log_example :
    (ms : Loggers) × (l : Logger) × (apply_define (system ∷ []) [] louder ≡ ok ms)
    × (find_logger louder.name ms ≡ some l)
    × (kinds_of (log screen l info) ≡ written debug info (all_wanted louder.appenders))
    × All CanWrite (log screen l info)
apply_define-log_example =
    apply_define-log (system ∷ []) [] louder
      (record { type_of = 2; level = warn; formatter = []; file_of = [] }) [] screen info
      (inr (system, louder_found, louder_changed)) (inr refl, tt) refl
