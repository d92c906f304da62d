-- ===== src/Loggers/Levels.antt =====
-- The levels and their names.
use server_framework.Base.{◌≡◌, refl}
use server_framework.Loggers.{
  Level, unknow, debug, info, warn, error, fatal, same_text, to_string, level_of, from_string,
}

from_string-to_string : (l : Level) → from_string (to_string l) ≡ l
unfolding from_string to_string level_of same_text
from_string-to_string unknow = refl
from_string-to_string debug = refl
from_string-to_string info = refl
from_string-to_string warn = refl
from_string-to_string error = refl
from_string-to_string fatal = refl
