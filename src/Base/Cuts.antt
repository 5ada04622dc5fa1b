-- ===== src/Base/Cuts.antt =====
-- Texts with characters taken away.
use Prim.Native.Nat.{ℕ}
use Prim.Native.Char.{code}
use Prim.Native.String.{String}
use mathlib.Core.Bool.{Bool, true, ◌||◌}
use text.Mathlib.Text.{◌==◌ as text_eq}
use nemoclaw_smb.Base.Tests.{◌==◌, if◌then◌else◌}

-- `text.replace(c, "")` for the character with this code
unfoldable pub without_char : ℕ → String → String
without_char n String.[] = ""
without_char n (String.◌∷◌ c s) =
    let rest = without_char n s in if code c == n then rest else String.◌∷◌ c rest

-- `text.strip("()")`
unfoldable pub lstrip_parens : String → String
lstrip_parens String.[] = ""
lstrip_parens (String.◌∷◌ c s) =
    let rest = lstrip_parens s in if code c == 40 || code c == 41 then rest else String.◌∷◌ c s

unfoldable pub rstrip_parens : String → String
rstrip_parens String.[] = ""
rstrip_parens (String.◌∷◌ c s) =
    let rest = rstrip_parens s in
    let kept = String.◌∷◌ c rest in
    if text_eq rest "" then if code c == 40 || code c == 41 then "" else kept else kept

abbrev pub strip_parens : String → String
strip_parens s = lstrip_parens (rstrip_parens s)

-- `text.endswith(suffix)`
unfoldable pub ends_with : String → String → Bool
ends_with suffix String.[] = text_eq suffix ""
ends_with suffix (String.◌∷◌ c s) =
    let rest = ends_with suffix s in if text_eq suffix (String.◌∷◌ c s) then true else rest

abbrev drop_last : String → String
drop_last String.[] = ""
drop_last (String.◌∷◌ c String.[]) = ""
drop_last (String.◌∷◌ c (String.◌∷◌ d s)) = String.◌∷◌ c (drop_last (String.◌∷◌ d s))

-- `text[1:-1]`
unfoldable pub inner : String → String
inner String.[] = ""
inner (String.◌∷◌ c s) = drop_last s
