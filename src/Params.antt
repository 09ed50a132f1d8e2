-- ===== src/Params.antt =====
-- params/config.go and params/checkconfig.go: the configuration of the router, and the sets that are
-- derived from it. A log.Fatal, which ends the process, comes back as the error runtime_panic.
pub mod State
pub mod Blacklist
pub mod Extra
pub mod Load
