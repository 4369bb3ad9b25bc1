-- ===== src/Logger/Manager.antt =====
-- `LogManager` and `Logger` of lib_logger/src/log_manager.cc and logger.cc: the loggers by the name
-- of their application, and the calls that filter a message by its level and put it into a queue.
-- The time, the thread and the process of an entry are left out; the message is given formatted.
-- The sequence is the thread's own.
pub mod Filter
mod Tests
use network_lirbary.Common.Dict.{lookup, insert}
use network_lirbary.Common.Text.{codes, is_empty}
use network_lirbary.Common.{
  ℕ, suc, ◌+◌, ◌%◌, ◌^◌, Bool, true, false, not, ◌&&◌, ltb, leb, if◌then◌else◌, List, [], ◌∷◌, map,
  Option, none, some, Bytes,
}
use network_lirbary.Logger.Async as Async
use network_lirbary.Logger.Async.{AsyncLogger, Outcome, returns, waits}
use network_lirbary.Logger.Config.{
  LogLevel, trace, debug, info, warn, error, fatal, critical, LoggerConfig, parse_config,
}

pub record LogEntry : Type 0 where
  pub level : LogLevel
  pub app_name : Bytes
  pub file : Bytes
  pub line : ℕ
  pub function : Bytes
  pub message : Bytes
  pub sequence : ℕ

-- Levels are compared by their place in the enumeration.
abbrev pub rank : LogLevel → ℕ
rank trace = 0
rank debug = 1
rank info = 2
rank warn = 3
rank error = 4
rank fatal = 5
rank critical = 6

-- A logger with the configuration it was given.
pub record Held : Type 0 where
  pub config : LoggerConfig
  pub logger : AsyncLogger LogEntry

pub record LogManager : Type 0 where
  pub loggers : List (Bytes × Held)
  pub default_app_name : Bytes
  -- The thread's next sequence number.
  pub sequence : ℕ

unfoldable pub new : LogManager
new = record { loggers = []; default_app_name = []; sequence = 0 }

abbrev pub app_key : LoggerConfig → Bytes
app_key c = if is_empty c.app_name then codes "default" else c.app_name

abbrev added : LogManager → LoggerConfig → Option Held → LogManager
added m c (some held) = m
added m c none =
    let name = app_key c in
    let final_config : LoggerConfig = record c { app_name = name } in
    record m {
      loggers =
          insert name
            (record { config = final_config; logger = Async.initialize final_config Async.new })
            m.loggers;
      default_app_name = if is_empty m.default_app_name then name else m.default_app_name;
    }

-- A name that is there keeps its logger.
pub initialize : LoggerConfig → LogManager → LogManager
initialize c m = added m c (lookup (app_key c) m.loggers)

-- The name that a lookup stands for; `GetLogger` of the empty name is the default logger.
abbrev pub name_of : LogManager → Bytes → Bytes
name_of m app_name = if is_empty app_name then m.default_app_name else app_name

pub get_logger : LogManager → Bytes → Option Held
get_logger m app_name =
    let name = name_of m app_name in if is_empty name then none else lookup name m.loggers

abbrev shut : Bytes × Held → Held
shut (name, held) = record held { logger = Async.shutdown held.logger }

-- The loggers as they were let go, and the empty manager.
pub shutdown : LogManager → List Held × LogManager
shutdown m = (map shut m.loggers, record m { loggers = []; default_app_name = [] })

abbrev pub no_loggers : List (Bytes × Held) → Bool
no_loggers [] = true
no_loggers (x ∷ xs) = false

abbrev pub severity_of : Option Held → LogLevel
severity_of none = info
severity_of (some held) = held.config.severity

pub get_default_severity : LogManager → LogLevel
get_default_severity m =
    if no_loggers m.loggers && is_empty m.default_app_name
    then info
    else severity_of (lookup m.default_app_name m.loggers)

-- `Logger::IsLevelEnabled`
pub is_level_enabled : LogManager → LogLevel → Bool
unfolding get_default_severity
is_level_enabled m level = leb (rank (get_default_severity m)) (rank level)

-- What a call comes to: it returns, or it waits for room in the queue.
pub data Logged : Type 0 where
  logged : LogManager → Logged
  waiting : Logged

abbrev stored : LogManager → Bytes → Held → Outcome LogEntry → Logged
stored m name held (returns b l) = logged (record m {
  loggers = insert name (record held { logger = l }) m.loggers;
  sequence = (m.sequence + 1) % 2 ^ 64;
})
stored m name held waits = waiting

-- The entry is numbered and put into the logger's queue, where there is a logger.
pub submit : LogManager → Bytes → Option Held → LogEntry → Logged
submit m name none e = logged m
submit m name (some held) e =
    stored m name held (Async.enqueue held.logger (record e { sequence = m.sequence }))

-- The same behind the filter by severity.
pub filtered : LogManager → Bytes → Option Held → LogEntry → Logged
unfolding submit
filtered m name none e = logged m
filtered m name (some held) e =
    if ltb (rank e.level) (rank held.config.severity) then logged m else submit m name (some held) e

-- `Logger::Log`
pub log : LogManager → LogEntry → Logged
unfolding filtered get_logger
log m e = filtered m m.default_app_name (get_logger m []) e

-- `Logger::LogApp`: a name without a logger falls back on the default logger. The entry keeps the
-- name that was asked for.
abbrev fallback : LogManager → Bytes → Option Held → LogEntry → Logged
fallback m name none e = log m e
fallback m name (some held) e = filtered m name (some held) e

pub log_app : LogManager → Bytes → LogEntry → Logged
log_app m app_name e =
    fallback m (name_of m app_name) (get_logger m app_name) (record e { app_name = app_name })

-- `Logger::Initialize`
pub initialize_text : Option Bytes → LogManager → LogManager
initialize_text config_string m = initialize (parse_config config_string) m
