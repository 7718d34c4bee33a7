-- ===== src/Server/Attribution/Batches.antt =====
-- What the loop over the stream hands on and what it drops.
use mathlib.Core.Path.{subst}
use mathlib.Core.List.{append-nil, append_assoc}
use ore_pool.Prelude.{
  sym, ℕ, ◌+◌, ◌<◌, ◌≡◌, refl, ◌∙◌, ap, List, [], ◌∷◌, ◌++◌, ◌==◌, length, All, arith, Bool-cases,
  inl, inr, length-append, min, suc, zero, leb, if◌then◌else◌, ◌*◌, ◌%◌,
}
use ore_pool.Server.Database.{MemberRow}
use ore_pool.Server.Attribution.{full_buffers, num_attributions_per_tx}

abbrev pub concat_all : List (List MemberRow) → List MemberRow
concat_all [] = []
concat_all (b ∷ bs) = b ++ concat_all bs

-- Full buffers of the given size, in order, and then what is dropped, less than one buffer.
pub record Splits (size : ℕ) (rows : List MemberRow) (batches : List (List MemberRow))
    : Type 0 where
  pub dropped : List MemberRow
  pub in_order : concat_all batches ++ dropped ≡ rows
  pub full : All (λ (b : List MemberRow). length b ≡ size) batches
  pub short : length dropped < size

-- The loop, with what the buffer holds already.
pub full_buffers-Splits :
    (size : ℕ) (rows buffer : List MemberRow)
    → length buffer < size
    → Splits size (buffer ++ rows) (full_buffers size rows buffer)
unfolding full_buffers
full_buffers-Splits size [] buffer h = record {
  dropped = buffer;
  in_order = sym (append-nil buffer);
  full = tt;
  short = h;
}
full_buffers-Splits size (r ∷ rs) buffer h =
    let filled = buffer ++ r ∷ [] in
    let grown = length-append {0} buffer (r ∷ []) in
    elim (Bool-cases (length filled == size)) [
      | inl done ↦
          let v = full_buffers-Splits size rs [] (omega arith) in
          rw done (record {
            dropped = v.dropped;
            in_order =
                append_assoc filled _ _
                ∙ ap (λ t. filled ++ t) v.in_order
                ∙ append_assoc buffer (r ∷ []) rs;
            full = (ground (arith, done), v.full);
            short = v.short;
          })
      | inr more ↦
          let v = full_buffers-Splits size rs filled (ground (arith, grown, more)) in
          rw more (record {
            dropped = v.dropped;
            in_order = v.in_order ∙ append_assoc buffer (r ∷ []) rs;
            full = v.full;
            short = v.short;
          })
    ]

-- How many rows are handed on.
concat_length :
    (size : ℕ) (bs : List (List MemberRow))
    → All (λ (b : List MemberRow). length b ≡ size) bs
    → length (concat_all bs) ≡ length bs * size
concat_length size [] h = omega arith
concat_length size (b ∷ bs) h =
    omega (arith, length-append {0} b (concat_all bs), concat_length size bs h.1)

-- What full batches of ten, or one of all, leave.
left_over :
    (n k d size : ℕ)
    → size ≡ min 10 n
    → k * size + d ≡ n
    → d < size
    → d ≡ (if leb n 10 then 0 else n % 10)
left_over n zero d size e h lt = ground arith
left_over n (suc k) d size e h lt = elim (Bool-cases (leb n 10)) [
  | inl few ↦ ground arith
  | inr many ↦
      let ten : size ≡ 10 = ground arith in
      let h' : suc k * 10 + d ≡ n = subst (λ t. suc k * t + d ≡ n) ten h in
      ground (arith, h', ten, many)
]

pub Splits-length-dropped :
    (rows : List MemberRow) (batches : List (List MemberRow))
    (v : Splits (min num_attributions_per_tx (length rows)) rows batches)
    → length v.dropped ≡ (if leb (length rows) 10 then 0 else length rows % 10)
Splits-length-dropped rows batches v =
    left_over (length rows) (length batches) (length v.dropped) _ refl
      (omega (
        arith,
        concat_length _ batches v.full,
        ap length v.in_order,
        length-append {0} (concat_all batches) v.dropped,
      ))
      v.short
