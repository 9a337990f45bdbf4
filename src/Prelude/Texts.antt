-- ===== src/Prelude/Texts.antt =====
-- Texts: concatenation, Python's `len`, and truth.
use Prim.Native.Nat.{ℕ}
use Prim.Native.String.{String, ◌++◌, count}
use mathlib.Core.Bool.{Bool}
use ai_decision_firewall.Prelude.Tests.{◌==◌, string_eq}

-- `f"{a}{b}"`
abbrev pub join : String → String → String
join a b = a ++ b

-- `len(s)` counts characters.
abbrev pub text_length : String → ℕ
text_length s = count s

-- `not s`
abbrev pub is_blank : String → Bool
is_blank s = s == ""
