-- ===== src/Glib.antt =====
-- The string functions of GLib that the code calls, with what their documentation states
-- of them. GLib is not part of this repository, so they are parameters; `ascii` in Tests.Ascii is a
-- value of this record.
use irssi_robustirc.Base.{ℕ, ◌≡◌, ◌↔◌, List, length}
use irssi_robustirc.Base.Int.{ℤ, pos}
use irssi_robustirc.Base.Text.{Str}

pub record Glib : Type 0 where
  -- g_ascii_strdown (s, -1)
  pub strdown : Str → Str
  -- g_strsplit (s, ",", -1)
  pub split_commas : Str → List Str
  -- g_strstrip
  pub strstrip : Str → Str
  -- g_ascii_strncasecmp
  pub strncasecmp : Str → Str → ℕ → ℤ
  -- g_str_hash, a guint
  pub str_hash : Str → ℕ
  -- Every upper case letter is converted, and nothing else.
  pub strdown-strdown : (s : Str) → strdown (strdown s) ≡ strdown s
  pub length-strdown : (s : Str) → length (strdown s) ≡ length s
  -- The comparison is zero exactly if the two differ at most in case.
  pub strncasecmp_iff :
      (s t : Str)
      → length s ≡ length t
      → (strncasecmp s t (length s) ≡ pos 0) ↔ (strdown s ≡ strdown t)
