-- ===== src/Python.antt =====
-- What the modules use of Python itself: dictionaries, calls that change a state and may raise,
-- integers, texts, the values that JSON carries, other objects, and coroutines.
pub mod Dict
pub mod Exec
pub mod Int
pub mod Value
pub mod Decimal
pub mod Text
pub mod Object
pub mod Coroutine
