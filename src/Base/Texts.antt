-- ===== src/Base/Texts.antt =====
-- Go's tests on texts.
use Prim.Native.Nat.{suc}
use Prim.Native.String.{String, find, len}
use mathlib.Core.Bool.{Bool}
use text.Mathlib.Text.{starts_with}
use etl_gardener.Base.Tests.{ltb}

-- strings.Contains: `find` gives a position in the text, or one past its last.
abbrev pub text_contains : String → String → Bool
text_contains text part = ltb (find text part) (suc (len text))

-- strings.HasPrefix
abbrev pub has_prefix : String → String → Bool
has_prefix text part = starts_with text part
