-- ===== src/Ecaccess.antt =====
-- The ECaccess client and the runner that goes through it: ecmwf_ecaccess_perl.py and
-- _ecmwf_ecaccess.py of hpc_relay/cmd_runners.
pub mod Xml
pub mod Envelope
pub mod Encode
pub mod Client
pub mod Jobs
pub mod Token
pub mod Session
pub mod JobSession
pub mod Effects
pub mod Release
pub mod MainEnds
pub mod Trace
pub mod Sent
pub mod Succeeded
pub mod Output
pub mod Poll
mod Tests
pub mod Runner
pub mod Print
pub mod Main
