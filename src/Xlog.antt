-- ===== src/Xlog.antt =====
-- The enumerations of the mars library's log (libs/mars/include/mars/xlog/appender.h and xloggerbase.h)
-- that `init` sets.

pub data AppenderMode : Type 0 where
  appender_async : AppenderMode
  appender_sync : AppenderMode

pub data LogLevel : Type 0 where
  level_verbose : LogLevel
  level_debug : LogLevel
  level_info : LogLevel
  level_warn : LogLevel
  level_error : LogLevel
  level_fatal : LogLevel
  level_none : LogLevel
