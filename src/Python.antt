-- ===== src/Python.antt =====
-- What the sources use of the Python language and its standard library.
pub mod Text
pub mod Lines
pub mod Value
pub mod Dict
pub mod Json
pub mod Runtime
pub mod PurePath
pub mod PathName
pub mod FileSystem
pub mod Validators
pub mod Int
pub mod IntText
