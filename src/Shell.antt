-- ===== src/Shell.antt =====
-- Shell text. `Quote` has the quoting of Python's `shlex` and `quote_path` of
-- hpc_relay/cmd_runners/_types.py; `Reader` is a reader of shell text that knows nothing of the
-- quoting; the other children relate the two.
pub mod Chars
pub mod Quote
pub mod Reader
pub mod RoundTrip
pub mod PathWord
pub mod HomePath
pub mod Line
mod Tests
