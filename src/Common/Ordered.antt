-- ===== src/Common/Ordered.antt =====
-- The order that sort() and < give to texts, by their units, and lists of texts without repetition.
use Prim.Native.Nat.{compare, Ordering}
use mathlib.Core.List.{List, [], ◌∷◌}
use ruleoak.Common.Tests.{if◌then◌else◌}
use ruleoak.Common.Lists.{any}
use ruleoak.Common.Sort.{then_by}
use ruleoak.Common.Texts.{Text, same}

unfoldable pub compare_text : Text → Text → Ordering
compare_text [] [] = Ordering.eq
compare_text [] (d ∷ t) = Ordering.lt
compare_text (c ∷ s) [] = Ordering.gt
compare_text (c ∷ s) (d ∷ t) = then_by (compare c d) (compare_text s t)

unfoldable pub distinct : List Text → List Text
distinct [] = []
distinct (x ∷ xs) = let rest = distinct xs in if any (same x) rest then rest else x ∷ rest
