-- ===== src/Logger/Manager/Filter.antt =====
-- The filter of `Log` beside the question `IsLevelEnabled`.
use network_lirbary.Common.Dict.{lookup}
use network_lirbary.Common.Text.{is_empty}
use network_lirbary.Common.{
  ◌≡◌, refl, sym, subst, ap, ◌∙◌, Bool, true, false, ◌&&◌, leb, if◌then◌else◌, Bool-cases, inl, inr,
  [], Option, none, some, Bytes, arith,
}
use network_lirbary.Logger.Manager.{
  LogManager, LogEntry, Held, rank, Logged, logged, get_default_severity, is_level_enabled,
  severity_of, get_logger, filtered, submit, log, no_loggers,
}
use network_lirbary.Logger.Config.{LogLevel}

both : (b : Bool) (x : Logged) → x ≡ (if b then x else x)
both true x = refl
both false x = refl

-- Asked of a logger, the filter is the comparison of levels.
filtered-severity_of :
    (m : LogManager) (name : Bytes) (o : Option Held) (e : LogEntry)
    → filtered m name o e
      ≡ (if leb (rank (severity_of o)) (rank e.level) then submit m name o e else logged m)
unfolding filtered submit
filtered-severity_of m name none e = both (leb 2 (rank e.level)) (logged m)
filtered-severity_of m name (some held) e = ground arith

and_false : (b : Bool) → (b && false) ≡ false
and_false true = refl
and_false false = refl

-- The default logger where one is named.
module _ (m : LogManager) (named : is_empty m.default_app_name ≡ false) where
  default_logger : get_logger m [] ≡ lookup m.default_app_name m.loggers
  unfolding get_logger
  default_logger = ap (λ b. if b then none else lookup m.default_app_name m.loggers) named

  default_severity : get_default_severity m ≡ severity_of (lookup m.default_app_name m.loggers)
  unfolding get_default_severity
  default_severity =
      ap (λ b. if b then LogLevel.info else severity_of (lookup m.default_app_name m.loggers))
        (ap (λ b. no_loggers m.loggers && b) named ∙ and_false (no_loggers m.loggers))

no_default : (m : LogManager) → is_empty m.default_app_name ≡ true → get_logger m [] ≡ none
unfolding get_logger
no_default m e = ap (λ b. if b then none else lookup m.default_app_name m.loggers) e

log-filter :
    (m : LogManager) (e : LogEntry)
    → log m e ≡ (
        if is_level_enabled m e.level
        then submit m m.default_app_name (get_logger m []) e
        else logged m)
unfolding log is_level_enabled
log-filter m e = elim (Bool-cases (is_empty m.default_app_name)) [
  | inl none_named ↦
      subst
        (λ o.
          filtered m m.default_app_name o e
          ≡ (if is_level_enabled m e.level then submit m m.default_app_name o e else logged m))
        (sym (no_default m none_named)) (both (is_level_enabled m e.level) (logged m))
  | inr named ↦
      subst
        (λ o.
          filtered m m.default_app_name o e
          ≡ (if is_level_enabled m e.level then submit m m.default_app_name o e else logged m))
        (sym (default_logger m named))
        (filtered-severity_of m m.default_app_name (lookup m.default_app_name m.loggers) e
          ∙ ap
              (λ s.
                if leb (rank s) (rank e.level)
                then submit m m.default_app_name (lookup m.default_app_name m.loggers) e
                else logged m)
              (sym (default_severity m named)))
]

-- Where there is a default logger, `Log` hands a message to its `Enqueue`, numbered, exactly if
-- `IsLevelEnabled` answers that the level of the message is enabled, and drops it otherwise;
-- what `Enqueue` does with it, on a full queue too, is the logger's.
pub log-is_level_enabled :
    (m : LogManager) (e : LogEntry) (held : Held)
    → get_logger m [] ≡ some held
    → log m e
      ≡ (if is_level_enabled m e.level then submit m m.default_app_name (some held) e else logged m)
log-is_level_enabled m e held there =
    log-filter m e
    ∙ ap (λ o. if is_level_enabled m e.level then submit m m.default_app_name o e else logged m)
        there
