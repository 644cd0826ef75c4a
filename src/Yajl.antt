-- ===== src/Yajl.antt =====
-- The incremental parser of yajl (yajl_parse with yajl_allow_multiple_values), with what the code
-- relies on. yajl is not part of this repository, so it is a parameter; `letters` in Tests.Parser is
-- a value of this record.
use irssi_robustirc.Base.{◌≡◌, Bool, false, List, ◌++◌}
use irssi_robustirc.Base.Text.{Str}
use irssi_robustirc.Messages.{Token}

-- A handle is known by the bytes that it was given since yajl_alloc, in one call or several.
pub record Yajl : Type 0 where
  -- The callbacks made for them
  pub emits : Str → List Token
  -- Whether each call returned yajl_status_ok
  pub valid : Str → Bool
  -- More bytes only add callbacks.
  pub emits_more : (old new : Str) → (more : List Token) × (emits (old ++ new) ≡ emits old ++ more)
  -- After an error every call fails, and makes no callback.
  pub stays_invalid :
      (old new : Str)
      → valid old ≡ false
      → (valid (old ++ new) ≡ false) × (emits (old ++ new) ≡ emits old)
