-- ===== src/Server/Operator/Chunks.antt =====
-- The stakers' accounts, asked for in chunks, are those asked for at once.
use ore_pool.Prelude.{
  ℕ, zero, suc, ◌≤◌, ◌≡◌, refl, sym, ap, ◌∙◌, List, [], ◌∷◌, ◌++◌, map, ok, Option, length, take,
  drop, arith, length-take, length-drop, take-append-drop,
}
use ore_pool.Api.State.{Addresses, Pubkey}
use ore_pool.Server.Rpc.{Rpc}
use ore_pool.Server.Operator.{Operator}
use ore_pool.Server.Operator.Reads.{chunks, chunks_loop, get_chunks}

module _ {R : Type 0} (rpc : Rpc R) (ids : Addresses) (operator : Operator)
    (contents : Pubkey → Option (List ℕ)) (r : R) where
  map-append : (xs ys : List Pubkey) → map contents (xs ++ ys) ≡ map contents xs ++ map contents ys
  map-append [] ys = refl
  map-append (x ∷ xs) ys = ap (λ t. contents x ∷ t) (map-append xs ys)

  get_chunks-chunks_loop :
      ((ks : List Pubkey)
        → length ks ≤ 100
        → rpc.get_multiple_accounts ks r ≡ (ok (map contents ks), r))
      → (n : ℕ) (ks : List Pubkey) → length ks ≤ n
      → get_chunks rpc ids operator (chunks_loop n ks) r ≡ (ok (map contents ks), r)
  unfolding get_chunks chunks_loop
  get_chunks-chunks_loop answers zero [] h = refl
  get_chunks-chunks_loop answers zero (k ∷ ks) h = absurd (omega arith)
  get_chunks-chunks_loop answers (suc n) [] h = refl
  get_chunks-chunks_loop answers (suc n) (k ∷ ks) h =
      let front = take 100 (k ∷ ks) in
      let rest = drop 100 (k ∷ ks) in
      let first = answers front (omega (arith, length-take 100 (k ∷ ks))) in
      let later =
        get_chunks-chunks_loop answers n rest (omega (arith, length-drop 100 (k ∷ ks), h)) in
      let whole : map contents front ++ map contents rest ≡ map contents (k ∷ ks) =
        sym (map-append front rest) ∙ ap (map contents) (take-append-drop 100 (k ∷ ks)) in
      ground (arith, first, later, whole)

  -- If the node answers for lists of up to a hundred accounts with their contents, then the chunks
  -- of any list give the contents of the whole list, in order.
  pub get_chunks-chunks :
      ((ks : List Pubkey)
        → length ks ≤ 100
        → rpc.get_multiple_accounts ks r ≡ (ok (map contents ks), r))
      → (ks : List Pubkey) → get_chunks rpc ids operator (chunks ks) r ≡ (ok (map contents ks), r)
  get_chunks-chunks answers ks = get_chunks-chunks_loop answers (length ks) ks (omega arith)
