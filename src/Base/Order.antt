-- ===== src/Base/Order.antt =====
-- The order of Rust's `str`.
use mathlib.Core.Path.{◌≡◌, refl}
use mathlib.Core.Logic.{inl, inr}
use mathlib.Core.Bool.{Bool, true, false, ◌&&◌, ◌||◌}
use mathlib.Core.List.{[], ◌∷◌}
use native.Mathlib.Omega.{arith}
use ethabi.Base.Tests.{ltb, ◌==◌, Bool-cases}
use ethabi.Base.Lists.{Bytes}
use ethabi.Base.Text.{text_eq, text_eq_ne}

-- The order of `str`: that of its bytes.
unfoldable pub before : Bytes → Bytes → Bool
before a [] = false
before [] (c ∷ cs) = true
before (b ∷ bs) (c ∷ cs) = ltb b c || ((b == c) && before bs cs)

-- `before` is a strict order, and any two texts compare.
pub before_irrefl : (a : Bytes) → before a a ≡ false
unfolding before
before_irrefl [] = refl
before_irrefl (b ∷ bs) = ground (arith, before_irrefl bs)

pub before_trans : (a b c : Bytes) → before a b ≡ true → before b c ≡ true → before a c ≡ true
unfolding before
before_trans a [] c h k = absurd (cc)
before_trans [] (b ∷ bs) [] h k = absurd (cc)
before_trans [] (b ∷ bs) (c ∷ cs) h k = refl
before_trans (a ∷ as') (b ∷ bs) [] h k = absurd (cc)
before_trans (a ∷ as') (b ∷ bs) (c ∷ cs) h k = ground (arith, before_trans as' bs cs)

pub before_total : (a b : Bytes) → text_eq a b ≡ false → before a b ≡ false → before b a ≡ true
unfolding before text_eq
before_total [] [] h k = absurd (cc)
before_total [] (b ∷ bs) h k = absurd (cc)
before_total (a ∷ as') [] h k = refl
before_total (a ∷ as') (b ∷ bs) h k = ground (arith, before_total as' bs)

-- What follows a text is neither the same nor before.
pub after : (a b : Bytes) → before a b ≡ true → (text_eq b a ≡ false) × (before b a ≡ false)
after a b h = (differ, not_back)
  where
    loop : before a a ≡ true → ⊥
    loop e = let never = before_irrefl a in absurd (cc)

    not_back : before b a ≡ false
    not_back = elim (Bool-cases (before b a)) [
      | inl e ↦ absurd (loop (before_trans a b a h e))
      | inr e ↦ e
    ]

    differ : text_eq b a ≡ false
    differ = text_eq_ne b a λ e. loop (rw e at h)
