-- ===== src/Unicode.antt =====
-- What the source uses of Unicode tables: a parameter of the definitions that need it.
use varar.Base.{ℕ, Bool}
use varar.Text.{Text}

-- `toLowerCase()`; `replace(/[^\p{L}\p{N} _-]/gu, '')`; and whether a letter, digit or underscore ends
-- at an offset, and begins there.
pub record Unicode : Type 0 where
  pub to_lower : Text → Text
  pub without_punctuation : Text → Text
  pub word_behind : Text → ℕ → Bool
  pub word_ahead : Text → ℕ → Bool
