-- ===== src/Engine/Welford/Merge.antt =====
-- What merging two running variances makes of their counts.
use edge_telemetry_daemon.Shared.{
  ◌+◌, ◌%◌, ◌<◌, ◌≡◌, refl, List, [], ◌∷◌, ◌++◌, arith, length, length-append, if_ind, ◌==◌,
  u64_mod,
}
use edge_telemetry_daemon.Shared.Float.{Float}
use edge_telemetry_daemon.Engine.Welford.{Welford, empty, update, merge}

module _ {ℓ} {F : Type ℓ} ⦃f : Float F⦄ where
  fed : Welford F → List F → Welford F
  fed w [] = w
  fed w (x ∷ xs) = fed (update w x) xs

  fed-count :
      (w : Welford F) (xs : List F)
      → w.count < u64_mod
      → (fed w xs).count ≡ (w.count + length xs) % u64_mod
  unfolding fed update
  fed-count w [] le = omega (arith, le)
  fed-count w (x ∷ xs) le = omega (arith, le, fed-count (update w x) xs (omega arith))

  merge-count :
      (w o : Welford F)
      → w.count < u64_mod
      → o.count < u64_mod
      → (merge w o).count ≡ (w.count + o.count) % u64_mod
  unfolding merge
  merge-count w o p q =
      if_ind (λ (r : Welford F). r.count ≡ (w.count + o.count) % u64_mod) (o.count == 0)
        (λ none_there. ground (arith, p))
        λ _.
          if_ind (λ (r : Welford F). r.count ≡ (w.count + o.count) % u64_mod) (w.count == 0)
            (λ none_here. ground (arith, q)) (λ _. omega arith)

  -- Two trackers that are merged have the count of one that was fed the samples of both.
  merge-fed :
      (xs ys : List F) → (merge (fed empty xs) (fed empty ys)).count ≡ (fed empty (xs ++ ys)).count
  merge-fed xs ys =
      let p = fed-count empty xs (omega arith) in
      let q = fed-count empty ys (omega arith) in
      omega (
        arith,
        p,
        q,
        merge-count (fed empty xs) (fed empty ys) (omega (arith, p)) (omega (arith, q)),
        fed-count empty (xs ++ ys) (omega arith),
        length-append xs ys,
      )

  -- Merging with a tracker that was fed nothing changes nothing.
  merge-empty : (w : Welford F) → merge w empty ≡ w
  unfolding merge
  merge-empty w = refl
