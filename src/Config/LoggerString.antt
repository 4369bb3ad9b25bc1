-- ===== src/Config/LoggerString.antt =====
-- `ConfigParser::GenerateLoggerConfig` of lib_network/src/config/config_parser.cc: the logging
-- settings as the string that the logging library is initialised with.
pub mod RoundTrip
use network_lirbary.Common.{true, false, ◌||◌, not, if◌then◌else◌, [], ◌++◌, Bytes, Bool, ◌∷◌}
use network_lirbary.Common.Dict.{bytes_eq}
use network_lirbary.Common.Text.{codes, is_empty}
use network_lirbary.Config.Settings.{LoggingConfig}

pub generate_logger_config : LoggingConfig → Bytes
generate_logger_config config =
    codes "severity="
    ++ config.level
    ++ codes ";"
    ++ codes "format="
    ++ config.format
    ++ codes ";"
    ++ (if bytes_eq config.output (codes "file") || not (is_empty config.file_path)
        then codes "logfile=" ++ config.file_path ++ codes ";" ++ codes "console=true;"
        else codes "console=true;")
    ++ (if config.compress then codes "rotation_compress=true;" else [])
