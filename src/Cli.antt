-- ===== src/Cli.antt =====
-- cli/main.go: the command line client. What the user types, the reads of its connection, and what the
-- two goroutines do in turn are inputs. Printing is a list, the newest last.
pub mod Connect
pub mod Reader
pub mod Prompt
