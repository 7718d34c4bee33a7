-- ===== src/Prelude/Fallible.antt =====
-- Asynchronous code that may fail and that changes a state `S`: what it returns and the state after
-- it, also where it fails. `.await?` and `?` become the steps of a `do` block.
use mathlib.Core.Path.{subst}
use ore_pool.Prelude.{
  sym, Bool, true, false, if◌then◌else◌, Result, ok, err, ◌≡◌, inl, inr, Result-cases, arith,
}

abbrev pub Fallible : Type 0 → Type 0 → Type 0 → Type 0
Fallible E S A = S → Result E A × S

abbrev pub continue : {E S A B : Type 0} → Result E A → S → (A → Fallible E S B) → Result E B × S
continue (ok value) s next = next value s
continue (err failure) s next = (err failure, s)

infixl 5 ◌>>=◌ ◌>>◌
abbrev pub ◌>>=◌ : {E S A B : Type 0} → Fallible E S A → (A → Fallible E S B) → Fallible E S B
(first >>= next) s = continue (first s).0 (first s).1 next

abbrev pub ◌>>◌ : {E S B : Type 0} → Fallible E S (Unit {0}) → Fallible E S B → Fallible E S B
first >> second = first >>= λ done. second

abbrev pub done : {E S A : Type 0} → A → Fallible E S A
done value s = (ok value, s)

abbrev pub fail : {E S A : Type 0} → E → Fallible E S A
fail failure s = (err failure, s)

-- A result that needs no state.
abbrev pub lift : {E S A : Type 0} → Result E A → Fallible E S A
lift r s = (r, s)

-- `if let Err(err) = .. { log }`, and a `match` on the result
abbrev pub attempt : {E S A : Type 0} → Fallible E S A → Fallible E S (Result E A)
attempt io s = (ok (io s).0, (io s).1)

-- What a step that succeeded leaves behind.
pub >>=-eq-done :
    {E S A B : Type 0} (first : Fallible E S A) (next : A → Fallible E S B) (s s' : S) {b : B}
    → (first >>= next) s ≡ (ok b, s')
    → (a : A) × ((first s).0 ≡ ok a) × (next a (first s).1 ≡ (ok b, s'))
>>=-eq-done first next s s' h = elim (Result-cases (first s).0) [
  | inl (a, e) ↦ (a, e, ground (arith, e, h))
  | inr (x, e) ↦ absurd (ground (arith, e, h))
]

-- A property of the state that holds after a step, whatever it returned, if it held before.
abbrev pub Keeps : {E S A : Type 0} → (S → Type 0) → Fallible E S A → Type 0
Keeps {S = S} P io = (s : S) → P s → P (io s).1

continue-Keeps :
    {E S A B : Type 0} (P : S → Type 0) (r : Result E A) (s : S) (next : A → Fallible E S B)
    → ((a : A) → Keeps P (next a))
    → P s
    → P (continue r s next).1
continue-Keeps P (ok a) s next keep h = keep a s h
continue-Keeps P (err e) s next keep h = h

pub >>=-Keeps :
    {E S A B : Type 0} (P : S → Type 0) (first : Fallible E S A) (next : A → Fallible E S B)
    → Keeps P first
    → ((a : A) → Keeps P (next a))
    → Keeps P (first >>= next)
>>=-Keeps P first next keep keep' s h =
    continue-Keeps P (first s).0 (first s).1 next keep' (keep s h)

-- What a field shows is kept by a step that does not change the field.
pub same-Keeps :
    {E S A B : Type 0} (f : S → B) (P : B → Type 0) (io : Fallible E S A)
    → ((s : S) → f (io s).1 ≡ f s)
    → Keeps (λ s. P (f s)) io
same-Keeps f P io same s h = subst P (sym (same s)) h

pub if-Keeps :
    {E S A : Type 0} (P : S → Type 0) (b : Bool) (first second : Fallible E S A)
    → Keeps P first
    → Keeps P second
    → Keeps P (if b then first else second)
if-Keeps P true first second keep keep' = keep
if-Keeps P false first second keep keep' = keep'
