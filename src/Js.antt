-- ===== src/Js.antt =====
-- The JavaScript values and operations that the program is written in.
pub mod Text
pub mod Number
pub mod Value
pub mod Dict
pub mod Group
