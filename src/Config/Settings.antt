-- ===== src/Config/Settings.antt =====
-- What `Load` makes of the lines of a configuration file.
use undying_terminal.Config.{Config}
