-- ===== src/Prelude/Store.antt =====
-- A map from keys to values in insertion order, as the account store, a table and the maps of the
-- server need it: reading finds the first entry, writing replaces it or appends.
use ore_pool.Prelude.{ℕ, ◌+◌, ◌≡◌, Option, none, some, List, [], ◌∷◌, arith, ◌==◌, if◌then◌else◌}

abbrev pub Store {ℓ} : Type ℓ → Type ℓ
Store V = List (ℕ × V)

module _ {ℓ} {V : Type ℓ} where
  unfoldable pub get : ℕ → Store V → Option V
  get k [] = none
  get k ((j, v) ∷ s) = if k == j then some v else get k s

  unfoldable pub put : ℕ → V → Store V → Store V
  put k v [] = (k, v) ∷ []
  put k v (e ∷ s) = if k == e.0 then (k, v) ∷ s else e ∷ put k v s

  unfoldable pub remove : ℕ → Store V → Store V
  remove k [] = []
  remove k (e ∷ s) = if k == e.0 then remove k s else e ∷ remove k s

  pub get-put :
      (j k : ℕ) (v : V) (s : Store V) → get j (put k v s) ≡ (if j == k then some v else get j s)
  unfolding get put
  get-put j k v [] = ground arith
  get-put j k v (e ∷ s) = ground (arith, get-put j k v s)

  pub get-remove : (j k : ℕ) (s : Store V) → get j (remove k s) ≡ (if j == k then none else get j s)
  unfolding get remove
  get-remove j k [] = ground arith
  get-remove j k (e ∷ s) = ground (arith, get-remove j k s)

  -- A weight summed over the entries.
  unfoldable pub total : (V → ℕ) → Store V → ℕ
  total w [] = 0
  total w (e ∷ s) = w e.1 + total w s

  pub total-put :
      (w : V → ℕ) (k : ℕ) (v old : V) (s : Store V)
      → get k s ≡ some old
      → total w (put k v s) + w old ≡ total w s + w v
  unfolding get put total
  total-put w k v old [] h = ground arith
  total-put w k v old (e ∷ s) h = ground (arith, total-put w k v old s)

  pub total-put_new :
      (w : V → ℕ) (k : ℕ) (v : V) (s : Store V)
      → get k s ≡ none
      → total w (put k v s) ≡ total w s + w v
  unfolding get put total
  total-put_new w k v [] h = omega arith
  total-put_new w k v (e ∷ s) h = ground (arith, total-put_new w k v s)

  pub put-put : (k : ℕ) (v w : V) (s : Store V) → put k w (put k v s) ≡ put k w s
  unfolding put
  put-put k v w [] = ground arith
  put-put k v w (e ∷ s) = ground (arith, put-put k v w s)
