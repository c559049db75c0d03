-- ===== src/Validator.antt =====
-- validator.go: the checks on a configuration, each of which may add errors to a result. `url.Parse`,
-- the conversion of a protobuf duration and the printing of a value are parameters.
pub mod Result
pub mod Checks
pub mod Rules
pub mod Sound
pub mod Errors
