-- ===== src/Base/Text.antt =====
-- Python's operations on texts.
use Prim.Native.Nat.{◌+◌, ◌-◌}
use Prim.Native.String.{String, len, slice, find}
use Prim.Native.String as Str
use text.Mathlib.Text.{◌==◌}
use mathlib.Core.Bool.{Bool, ◌&&◌}
use multi_agent_orchestratio.Base.Tests.{leb}

-- `s.endswith(t)`.
abbrev pub ends_with : String → String → Bool
ends_with s t = leb (len t) (len s) && slice s (len s - len t) (len s) == t

-- `s[:-2]`, where the last two characters are ASCII.
abbrev pub without_last_two : String → String
without_last_two s = slice s 0 (len s - 2)

infixr 65 ◌+++◌
-- `s + t`.
abbrev pub ◌+++◌ : String → String → String
s +++ t = Str.◌++◌ s t

-- `t in s`.
abbrev pub has_text : String → String → Bool
has_text t s = leb (find s t) (len s)

-- `s.split(t, 1)[0]` and `s.split(t, 1)[1]`, where t occurs in s.
abbrev pub before_first : String → String → String
before_first t s = slice s 0 (find s t)

abbrev pub after_first : String → String → String
after_first t s = slice s (find s t + len t) (len s)
