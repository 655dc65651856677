-- ===== src/Redis/Memory/Lists.antt =====
-- LMOVE RIGHT LEFT of the in-memory server.
use lost_media_finder.Prelude.{◌≡◌, refl, Option, none, some, List, [], ◌∷◌, ◌++◌, arith}
use lost_media_finder.Text.{Text}

-- All but the last element, and the last.
unsnoc : Text → List Text → Text × List Text
unsnoc x [] = (x, [])
unsnoc x (y ∷ ys) = let (last, rest) = unsnoc y ys in (last, x ∷ rest)

unfoldable pub lmove : List Text → List Text → Option (Text × List Text × List Text)
unfolding unsnoc
lmove [] d = none
lmove (x ∷ xs) d = let (last, rest) = unsnoc x xs in some (last, rest, last ∷ d)

unsnoc-append : (x y : Text) (xs : List Text) → unsnoc x (xs ++ y ∷ []) ≡ (y, x ∷ xs)
unfolding unsnoc
unsnoc-append x y [] = refl
unsnoc-append x y (z ∷ zs) = ground (arith, unsnoc-append z y zs)

pub lmove-snoc : (l d : List Text) (x : Text) → lmove (l ++ x ∷ []) d ≡ some (x, l, x ∷ d)
unfolding lmove
lmove-snoc [] d x = refl
lmove-snoc (y ∷ ys) d x = ground (arith, unsnoc-append y x ys)
