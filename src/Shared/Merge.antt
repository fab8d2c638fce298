-- ===== src/Shared/Merge.antt =====
-- A list that is made of two others, each in its order.
use edge_telemetry_daemon.Shared.{List, [], ◌∷◌, ◌++◌}

pub data Merge {ℓ} {A : Type ℓ} : List A → List A → List A → Type ℓ where
  ends : Merge [] [] []
  left : {xs ys zs : List A} (x : A) → Merge xs ys zs → Merge (x ∷ xs) ys (x ∷ zs)
  right : {xs ys zs : List A} (y : A) → Merge xs ys zs → Merge xs (y ∷ ys) (y ∷ zs)

pub Merge-append {ℓ} :
    {A : Type ℓ} {xs ys zs xs' ys' zs' : List A}
    → Merge xs ys zs
    → Merge xs' ys' zs'
    → Merge (xs ++ xs') (ys ++ ys') (zs ++ zs')
Merge-append ends n = n
Merge-append (left x m) n = left x (Merge-append m n)
Merge-append (right y m) n = right y (Merge-append m n)

pub Merge-left {ℓ} : {A : Type ℓ} (xs : List A) → Merge xs [] xs
Merge-left [] = ends
Merge-left (x ∷ xs) = left x (Merge-left xs)

pub Merge-right {ℓ} : {A : Type ℓ} (ys : List A) → Merge [] ys ys
Merge-right [] = ends
Merge-right (y ∷ ys) = right y (Merge-right ys)
