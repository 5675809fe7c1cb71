-- ===== src/Dex/Batches/Both.antt =====
-- The batches of two lists side by side (`do_cancel_amm_orders`, program/src/processor.rs).
use mathlib.Core.List.{flatten}
use raydium_amm_fair.Common.{
  ℕ, ◌+◌, ◌%◌, ◌<◌, ◌≡◌, refl, false, List, [], ◌∷◌, ◌++◌, ◌==◌, Bool-cases, inl, inr, arith,
  replicate,
}
use raydium_amm_fair.Outcome.{Outcome, ok, err, panic, ◌>>=◌}
use raydium_amm_fair.Dex.Batches.{
  Batches, no_batches, put_id, flush_full, fill_from, fill_both, batches_of, batches_of_both,
}
use raydium_amm_fair.Dex.Batches.Filled.{
  IsFull, IsFilling, put_id-array, one_round, no_batches-IsFilling, batches_of-partition,
}

-- Two lists in turns, with what is left of the longer one.
unfoldable pub interleave : List ℕ → List ℕ → List ℕ
interleave [] ys = ys
interleave (x ∷ xs) [] = x ∷ xs
interleave (x ∷ xs) (y ∷ ys) = x ∷ y ∷ interleave xs ys

bind_same {ℓ ℓ'} :
    {A : Type ℓ} {B : Type ℓ'} (m : Outcome A) (f g : A → Outcome B)
    → ((a : A) → f a ≡ g a)
    → (m >>= f) ≡ (m >>= g)
bind_same (ok a) f g h = h a
bind_same (err e) f g h = refl
bind_same panic f g h = refl

only_left : (xs : List ℕ) (b : Batches) → fill_both xs [] b ≡ fill_from xs b
unfolding fill_both fill_from
only_left [] b = refl
only_left (x ∷ xs) b = bind_same (put_id x b) _ _ (λ b'. only_left xs (flush_full b'))

only_right : (ys : List ℕ) (b : Batches) → fill_both [] ys b ≡ fill_from ys b
unfolding fill_both fill_from
only_right [] b = refl
only_right (y ∷ ys) b = bind_same (put_id y b) _ _ (λ b'. only_right ys (flush_full b'))

put_id-count :
    (done : List ℕ) (b : Batches) (part : List ℕ) (id : ℕ) {b' : Batches}
    → IsFilling done b part
    → put_id id b ≡ ok b'
    → b'.count ≡ b.count + 1
put_id-count done b part id h e = let put = put_id-array done b part id h in cc

-- An even count is not full after one more.
odd-flush : (b : Batches) (n : ℕ) → n % 2 ≡ 0 → b.count ≡ n + 1 → flush_full b ≡ b
unfolding flush_full
odd-flush b n even e = let open_still : (b.count == 8) ≡ false = ground arith in rw open_still

even-flush : (b : Batches) → b.count % 2 ≡ 0 → (flush_full b).count % 2 ≡ 0
unfolding flush_full
even-flush b even = elim (Bool-cases (b.count == 8)) [ inl e ↦ rw e | inr e ↦ rw e even ]

-- A pair goes in as one identifier behind the other.
in_turns :
    (xs ys done : List ℕ) (b : Batches) (part : List ℕ)
    → IsFilling done b part
    → b.count % 2 ≡ 0
    → fill_both xs ys b ≡ fill_from (interleave xs ys) b
unfolding interleave fill_both fill_from
in_turns [] ys done b part h even = only_right ys b
in_turns (x ∷ xs) [] done b part h even = only_left (x ∷ xs) b
in_turns (x ∷ xs) (y ∷ ys) done b part h even =
    let (b1, part1, e1, h1) = one_round done b part x h in
    let count1 = put_id-count done b part x h e1 in
    let same = odd-flush b1 b.count even count1 in
    let h1' = rw same at h1 in
    let (b2, part2, e2, h2) = one_round (done ++ (x ∷ [])) b1 part1 y h1' in
    let count2 = put_id-count (done ++ (x ∷ [])) b1 part1 y h1' e2 in
    let even2 : b2.count % 2 ≡ 0 = omega arith in
    let rest =
      in_turns xs ys ((done ++ (x ∷ [])) ++ (y ∷ [])) (flush_full b2) part2 h2
        (even-flush b2 even2) in
    rw (e1, same, e2) rest

-- Whatever the identifiers of the two lists are, cutting them into batches does not panic, every
-- batch has eight places, and the batches hold the identifiers of the two lists in turns, with fewer
-- than eight zeros behind.
pub batches_of_both-partition :
    (bids asks : List ℕ)
    → (batches : List (List ℕ)) × (batches_of_both bids asks ≡ ok batches)
      × IsFull batches
      × (n : ℕ) × (n < 8)
      × (flatten batches ≡ interleave bids asks ++ replicate n 0)
unfolding batches_of_both batches_of
batches_of_both-partition bids asks =
    let turns = in_turns bids asks [] no_batches [] no_batches-IsFilling refl in
    let (batches, e, full, n, less, all) = batches_of-partition (interleave bids asks) in
    (batches, rw turns e, full, n, less, all)
