-- ===== src/Tests/Fixtures.antt =====
-- Values that the examples share.
use Prim.Native.Nat.{Ordering}

-- A comparison of texts that finds no difference.
abbrev pub no_order {ℓ} : {A : Type ℓ} → A → A → Ordering
no_order a b = Ordering.eq
