-- ===== src/Logger/Manager/Tests.antt =====
-- A default logger that takes warnings, and a message above them.
use network_lirbary.Common.Text.{codes}
use network_lirbary.Common.{◌≡◌, refl, true, if◌then◌else◌, [], some}
use network_lirbary.Common.Dict.{lookup, insert, bytes_eq}
use network_lirbary.Logger.Async as Async
use network_lirbary.Logger.Config.{default_config, warn, error, LoggerConfig}
use network_lirbary.Logger.Manager.Filter.{log-is_level_enabled}
use network_lirbary.Logger.Manager.{
  LogManager, LogEntry, Held, get_default_severity, new, initialize, is_level_enabled, submit,
  get_logger, log, logged,
}

abbrev config : LoggerConfig
config = record default_config { app_name = codes "orders"; severity = warn }

abbrev manager : LogManager
manager = initialize config new

abbrev entry : LogEntry
entry = record {
  level = error;
  app_name = [];
  file = [];
  line = 7;
  function = [];
  message = codes "tick";
  sequence = 0;
}

abbrev held : Held
held = record { config = config; logger = Async.initialize config Async.new }

-- An error is put into the queue.
log-is_level_enabled_example : log manager entry ≡ (
    if is_level_enabled manager entry.level
    then submit manager manager.default_app_name (some held) entry
    else logged manager)
unfolding new initialize get_logger default_config lookup insert bytes_eq
log-is_level_enabled_example = log-is_level_enabled manager entry held refl

entry_enabled : is_level_enabled manager entry.level ≡ true
unfolding is_level_enabled get_default_severity new initialize default_config lookup insert bytes_eq
entry_enabled = refl
