-- ===== src/Logging.antt =====
-- rs/src/logging/mod.rs: the level of the log, which is read once, and the text of a line. The logger
-- itself is the crate rasant's.
use Prim.Native.String.{◌++◌ as ◌⊕◌}
use cryptomeria.Common.{Option, none, some, String}
use cryptomeria.Json.{and_then}

-- `log::LevelFilter` and the levels of rasant
pub data LevelFilter : Type 0 where
  filter_off filter_error filter_warn filter_info filter_debug filter_trace : LevelFilter

pub data Level : Type 0 where
  level_error level_warning level_info level_debug level_trace : Level

abbrev pub level_of : LevelFilter → Level
level_of filter_trace = level_trace
level_of filter_debug = level_debug
level_of filter_info = level_info
level_of filter_warn = level_warning
level_of filter_error = level_error
level_of filter_off = level_info

abbrev pub level_or_info : Option LevelFilter → Level
level_or_info none = level_info
level_or_info (some filter) = level_of filter

-- `LOGGER.get_or_init`: the variable RUST_LOG is read where there is no logger yet. `parse` is
-- `str::parse::<LevelFilter>().ok()`.
unfoldable pub init_logger : (String → Option LevelFilter) → Option String → Option Level → Level
init_logger parse rust_log (some logger) = logger
init_logger parse rust_log none = level_or_info (and_then rust_log parse)

-- `log`: the level of the line and its text
unfoldable pub log : Level → String → String → Level × String
log level source msg = (level, "[" ⊕ source ⊕ "] " ⊕ msg)

unfoldable pub info : String → String → Level × String
info source msg = log level_info source msg

unfoldable pub warn : String → String → Level × String
warn source msg = log level_warning source msg

unfoldable pub error : String → String → Level × String
error source msg = log level_error source msg

unfoldable pub debug : String → String → Level × String
debug source msg = log level_debug source msg
