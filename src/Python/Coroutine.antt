-- ===== src/Python/Coroutine.antt =====
-- A coroutine of Python, as a value of any type that is run up to its next `await` or its end.
use staykey_ha_plugin.Python.Exec.{Result}

pub data Resumed (T A : Type 0) : Type 0 where
  suspended : T → Resumed T A
  ended : Result A → Resumed T A
