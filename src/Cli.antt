-- ===== src/Cli.antt =====
-- internal/cli/cli.go: the commands. Flags are given as what was set and to which values; the
-- output, JSON, YAML and the formatting of times are parameters. The logger is left out, but for the
-- checks of its flags.
pub mod Outcome
pub mod Codes
pub mod Flags
pub mod Render
pub mod Commands
mod Examples
