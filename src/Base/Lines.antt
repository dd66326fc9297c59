-- ===== src/Base/Lines.antt =====
-- `str.splitlines`, and the indentation of a block as the source writes it.
use arango_sparql_py.Base.Str.{Str, codes}
use arango_sparql_py.Base.Tests.{if◌then◌else◌}
use arango_sparql_py.Base.Eq.{◌==◌, nat_eq}
use arango_sparql_py.Base.Lists.{is_nil, join}
use Prim.Native.Nat.{ℕ}
use mathlib.Core.Path.{◌≡◌, refl}
use mathlib.Core.Bool.{Bool, false, ◌&&◌, ◌||◌}
use mathlib.Core.List.{List, [], ◌∷◌, ◌++◌, map}
use arango_sparql_py.Base.Str.{between}

abbrev is_line_break : ℕ → Bool
is_line_break c = between 10 13 c || between 28 30 c || c == 133 || c == 0x2028 || c == 0x2029

-- `cr`: the character before was a carriage return, which takes a newline after it along.
lines_from : Bool → Str → Str → List Str
lines_from cr line [] = if is_nil line then [] else line ∷ []
lines_from cr line (c ∷ s) =
    let skipped = lines_from false line s in
    let broken = line ∷ lines_from (c == 13) [] s in
    let longer = lines_from false (line ++ c ∷ []) s in
    if cr && c == 10 then skipped else if is_line_break c then broken else longer

unfoldable pub split_lines : Str → List Str
unfolding lines_from
split_lines s = lines_from false [] s

-- `"\n".join("  " + line for line in s.splitlines())`
unfoldable pub indent : Str → Str
unfolding split_lines
indent s = join (10 ∷ []) (map (λ line. codes "  " ++ line) (split_lines s))

split_lines_test :
    split_lines (codes "a" ++ 13 ∷ 10 ∷ 10 ∷ codes "b" ++ 10 ∷ []) ≡ codes "a" ∷ [] ∷ codes "b" ∷ []
unfolding split_lines
split_lines_test = refl
