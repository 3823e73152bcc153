-- ===== src/Python/Exec/Words.antt =====
-- What `str` makes of an exception, spelled out.
use staykey_ha_plugin.Prelude.{String, ◌≡◌, refl}
use staykey_ha_plugin.Python.Exec.{
  Exception, key_error, value_error, type_error, support_action_disabled, unsupported_protocol,
  home_assistant_error, other_error, exception_text, ◌<>◌,
}

-- What an exception says.
abbrev pub words_of : Exception → String
words_of (key_error k) = "'" <> k <> "'"
words_of (value_error s) = s
words_of (type_error s) = s
words_of (support_action_disabled action) =
    "Action '" <> action <> "' needs Allow support access, which is off for this Staykey entry"
words_of (unsupported_protocol s) = s
words_of (home_assistant_error s status) = s
words_of (other_error s) = s

pub words_of-exception_text : (e : Exception) → exception_text e ≡ words_of e
unfolding exception_text
words_of-exception_text (key_error k) = refl
words_of-exception_text _ = refl
