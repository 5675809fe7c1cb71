-- ===== src/Dex/Batches/Filled.antt =====
-- The batches hold the identifiers, in order, and zeros behind the last one.
use mathlib.Core.List.{append_assoc, append-nil, flatten}
use raydium_amm_fair.Common.{
  ℕ, zero, suc, ◌+◌, ◌-◌, ◌<◌, ◌≡◌, refl, sym, ap, ◌∙◌, true, some, List, [], ◌∷◌, ◌++◌, ◌==◌, ◌!=◌,
  Bool-cases, inl, inr, arith, replicate, length, length-append,
}
use raydium_amm_fair.Outcome.{ok}
use raydium_amm_fair.Dex.Batches.{
  Batches, no_batches, set_elem?, put_id, flush_full, flush_rest, fill_from, batches_of,
}

-- Every batch has eight places.
abbrev pub IsFull : List (List ℕ) → Type 0
IsFull [] = Unit
IsFull (l ∷ ls) = (length l ≡ 8) × IsFull ls

-- Between two rounds: `part` stands at the front of the array, zeros behind it.
pub record IsFilling (done : List ℕ) (b : Batches) (part : List ℕ) : Type 0 where
  full : IsFull b.order_ids_vec
  all : flatten b.order_ids_vec ++ part ≡ done
  array : b.order_ids ≡ part ++ replicate (8 - length part) 0
  count : b.count ≡ length part
  room : length part < 8

flatten-append : (a b : List (List ℕ)) → flatten (a ++ b) ≡ flatten a ++ flatten b
unfolding flatten
flatten-append [] b = refl
flatten-append (l ∷ a) b = rw (flatten-append a b) (sym (append_assoc l (flatten a) (flatten b)))

IsFull-append : (a b : List (List ℕ)) → IsFull a → IsFull b → IsFull (a ++ b)
IsFull-append [] b _ h = h
IsFull-append (l ∷ a) b (h, hs) h' = (h, IsFull-append a b hs h')

set_elem?-end :
    (part : List ℕ) (k v : ℕ)
    → set_elem? (part ++ replicate (suc k) 0) (length part) v
      ≡ some ((part ++ (v ∷ [])) ++ replicate k 0)
unfolding set_elem?
set_elem?-end [] k v = refl
set_elem?-end (x ∷ part) k v = rw (set_elem?-end part k v)

length-replicate : (n : ℕ) → length (replicate {A = ℕ} n 0) ≡ n
length-replicate zero = refl
length-replicate (suc n) = ap suc (length-replicate n)

pub put_id-array :
    (done : List ℕ) (b : Batches) (part : List ℕ) (id : ℕ)
    → IsFilling done b part
    → put_id id b
      ≡ ok (record b {
        order_ids = (part ++ (id ∷ [])) ++ replicate (7 - length part) 0;
        count = b.count + 1;
      })
unfolding put_id
put_id-array done b part id h =
    let k : 8 - length part ≡ suc (7 - length part) = let r = h.room in omega arith in
    let e : set_elem? b.order_ids b.count id
        ≡ some ((part ++ (id ∷ [])) ++ replicate (7 - length part) 0) =
      rw (h.array, h.count, k) (set_elem?-end part (7 - length part) id) in
    rw (put_id, e)

length-snoc : (part : List ℕ) (id : ℕ) → length (part ++ (id ∷ [])) ≡ suc (length part)
length-snoc part id = omega (arith, length-append part (id ∷ []))

-- One round of the loop.
pub one_round :
    (done : List ℕ) (b : Batches) (part : List ℕ) (id : ℕ)
    → IsFilling done b part
    → (b' : Batches) × (part' : List ℕ) × (put_id id b ≡ ok b')
      × IsFilling (done ++ (id ∷ [])) (flush_full b') part'
unfolding flush_full flatten
one_round done b part id h =
    let array = (part ++ (id ∷ [])) ++ replicate (7 - length part) 0 in
    let b' : Batches = record b { order_ids = array; count = b.count + 1 } in
    let moved : flatten b.order_ids_vec ++ (part ++ (id ∷ [])) ≡ done ++ (id ∷ []) =
      sym (append_assoc (flatten b.order_ids_vec) part (id ∷ []))
      ∙ ap (λ l. l ++ (id ∷ [])) h.all in
    let n = h.count in
    let r = h.room in
    elim (Bool-cases (b.count + 1 == 8)) [
      | inl e ↦
          let seven : length part ≡ 7 = ground arith in
          let array' : array ≡ part ++ (id ∷ []) = rw seven (append-nil (part ++ (id ∷ []))) in
          let after : Batches = record {
            order_ids_vec = b.order_ids_vec ++ ((part ++ (id ∷ [])) ∷ []);
            order_ids = replicate 8 0;
            count = 0;
          } in
          let flushed : flush_full b' ≡ after = rw (e, array') in
          let filling : IsFilling (done ++ (id ∷ [])) after [] = record {
            full =
                IsFull-append b.order_ids_vec ((part ++ (id ∷ [])) ∷ []) h.full
                  (length-snoc part id ∙ ap suc seven, tt);
            all =
                append-nil (flatten after.order_ids_vec)
                ∙ flatten-append b.order_ids_vec ((part ++ (id ∷ [])) ∷ [])
                ∙ rw (append-nil (part ++ (id ∷ []))) moved;
            array = refl;
            count = refl;
            room = omega arith;
          } in
          (b', [], put_id-array done b part id h, rw flushed filling)
      | inr e ↦
          let less : suc (length part) < 8 = ground arith in
          let flushed : flush_full b' ≡ b' = rw e in
          let rest : 7 - length part ≡ 8 - length (part ++ (id ∷ [])) =
            omega (arith, length-snoc part id) in
          let filling : IsFilling (done ++ (id ∷ [])) b' (part ++ (id ∷ [])) = record {
            full = h.full;
            all = moved;
            array = ap (λ k. (part ++ (id ∷ [])) ++ replicate k 0) rest;
            count = omega (arith, n, length-snoc part id);
            room = omega (arith, less, length-snoc part id);
          } in
          (b', part ++ (id ∷ []), put_id-array done b part id h, rw flushed filling)
    ]

-- The loop comes to an end without a panic.
whole_loop :
    (ids done : List ℕ) (b : Batches) (part : List ℕ)
    → IsFilling done b part
    → (b' : Batches) × (part' : List ℕ) × (fill_from ids b ≡ ok b')
      × IsFilling (done ++ ids) b' part'
unfolding fill_from
whole_loop [] done b part h = (b, part, refl, rw (append-nil done) h)
whole_loop (id ∷ ids) done b part h =
    let (b', part', e, h') = one_round done b part id h in
    let (b'', part'', e', h'') = whole_loop ids (done ++ (id ∷ [])) (flush_full b') part' h' in
    (b'', part'', rw e e', rw (append_assoc done (id ∷ []) ids) at h'')

flush_rest-partition :
    (ids : List ℕ) (b : Batches) (part : List ℕ)
    → IsFilling ids b part
    → IsFull (flush_rest b) × (n : ℕ) × (n < 8) × (flatten (flush_rest b) ≡ ids ++ replicate n 0)
unfolding flush_rest flatten
flush_rest-partition ids b [] h =
    let none_left : flush_rest b ≡ b.order_ids_vec = rw h.count in
    (
      rw none_left h.full,
      0,
      omega arith,
      rw none_left (sym (append-nil (flatten b.order_ids_vec)) ∙ h.all ∙ sym (append-nil ids)),
    )
flush_rest-partition ids b (x ∷ part) h =
    let r = h.room in
    let n = 8 - length (x ∷ part) in
    let c = h.count in
    let begun : (b.count != 0) ≡ true = ground arith in
    let some_left : flush_rest b ≡ b.order_ids_vec ++ (b.order_ids ∷ []) = rw begun in
    let eight : length b.order_ids ≡ 8 =
      rw h.array omega (arith, length-append (x ∷ part) (replicate n 0), length-replicate n) in
    (
      rw some_left (IsFull-append b.order_ids_vec (b.order_ids ∷ []) h.full (eight, tt)),
      n,
      omega arith,
      rw some_left (
          flatten-append b.order_ids_vec (b.order_ids ∷ [])
          ∙ ap (λ l. flatten b.order_ids_vec ++ l) (append-nil b.order_ids ∙ h.array)
          ∙ sym (append_assoc (flatten b.order_ids_vec) (x ∷ part) (replicate n 0))
          ∙ ap (λ l. l ++ replicate n 0) h.all),
    )

pub no_batches-IsFilling : IsFilling [] no_batches []
unfolding flatten
no_batches-IsFilling = record {
  full = tt;
  all = refl;
  array = refl;
  count = refl;
  room = omega arith;
}

-- Whatever the identifiers are, cutting them into batches does not panic, every batch has eight
-- places, and the batches hold the identifiers in their order, with fewer than eight zeros behind.
pub batches_of-partition :
    (ids : List ℕ)
    → (batches : List (List ℕ)) × (batches_of ids ≡ ok batches)
      × IsFull batches
      × (n : ℕ) × (n < 8)
      × (flatten batches ≡ ids ++ replicate n 0)
unfolding batches_of flatten
batches_of-partition ids =
    let (b, part, e, h) = whole_loop ids [] no_batches [] no_batches-IsFilling in
    let (full, n, less, all) = flush_rest-partition ids b part h in
    (flush_rest b, rw e, full, n, less, all)
