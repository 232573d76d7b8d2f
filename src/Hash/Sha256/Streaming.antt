-- ===== src/Hash/Sha256/Streaming.antt =====
-- `sha256_update` and `sha256_final` of src/sha256.c against the padded message: the split of
-- the input over calls does not matter, and the digest is that of FIPS 180-4's block fold.
use repair_box_psx_hdd_setup.Base.{
  ℕ, zero, suc, ◌+◌, ◌-◌, ◌≤◌, ◌<◌, min, ◌≡◌, refl, sym, ap, ◌∙◌, List, [], ◌∷◌, ◌++◌, append_assoc,
  append-nil, length, take, drop, write_at, length-append, length-take, length-drop, take-append,
  take-all, drop-all, take-append-drop, ◌==◌, ==_iff, if_intro, arith,
}
use repair_box_psx_hdd_setup.Hash.Padding.{absorb, absorb-append, absorb_partial, absorb_full}
use repair_box_psx_hdd_setup.Hash.Sha256.{
  State, Context, transform, fill, compress, update_step, update_loop,
}

-- What holds of a context between two calls.
pub record IsContext (context : Context) : Type 0 where
  pub room : context.block_used < 64
  pub whole : length context.block ≡ 64

-- The part of a context that the digest depends on: the state and the bytes that wait.
abbrev pub waiting : Context → List ℕ
waiting context = take context.block_used context.block

abbrev pub pending : Context → State × List ℕ
pending context = (context.state, waiting context)

-- Bytes written behind `at` bytes of a block.
pub take-write_at :
    (block xs : List ℕ) (at : ℕ)
    → at + length xs ≤ length block
    → take (at + length xs) (write_at block at xs) ≡ take at block ++ xs
take-write_at block xs at h =
    ap (take (at + length xs)) (sym (append_assoc (take at block) xs (drop (at + length xs) block)))
    ∙ take-append (at + length xs) (take at block ++ xs) (drop (at + length xs) block)
        (omega (arith, length-append {0} (take at block) xs, length-take {0} at block))

pub write_at_full :
    (block xs : List ℕ) (at : ℕ)
    → at + length xs ≡ length block
    → write_at block at xs ≡ take at block ++ xs
write_at_full block xs at h =
    ap (λ t. take at block ++ (xs ++ t)) (drop-all (at + length xs) block (omega arith))
    ∙ ap (λ t. take at block ++ t) (append-nil xs)

pub length-write_at :
    (block xs : List ℕ) (at : ℕ)
    → at + length xs ≤ length block
    → length (write_at block at xs) ≡ length block
length-write_at block xs at h = omega (
  arith,
  length-append {0} (take at block) (xs ++ drop (at + length xs) block),
  length-append {0} xs (drop (at + length xs) block),
  length-take {0} at block,
  length-drop {0} (at + length xs) block,
)

pub pending-fill :
    (c : Context) (xs : List ℕ)
    → length c.block ≡ 64
    → c.block_used + length xs ≤ 64
    → (pending (fill c xs) ≡ (c.state, waiting c ++ xs))
      × (length (fill c xs).block ≡ 64)
      × ((fill c xs).block_used ≡ c.block_used + length xs)
unfolding fill
pending-fill c xs w h = (
  ap (λ p. (c.state, p)) (take-write_at c.block xs c.block_used (omega arith)),
  length-write_at c.block xs c.block_used (omega arith) ∙ w,
  refl,
)

pub length-waiting :
    (c : Context) → length c.block ≡ 64 → c.block_used ≤ 64 → length (waiting c) ≡ c.block_used
length-waiting c w h = omega (arith, length-take {0} c.block_used c.block)

-- Bytes that do not fill the buffer.
pub fill-partial :
    (c : Context) (xs : List ℕ)
    → IsContext c
    → c.block_used + length xs < 64
    → (pending (fill c xs) ≡ absorb transform (pending c) xs) × IsContext (fill c xs)
fill-partial c xs fits h =
    let filled = pending-fill c xs fits.whole (omega arith) in
    let used = length-waiting c fits.whole (omega arith) in
    (
      filled.0 ∙ sym (absorb_partial transform xs c.state (waiting c) (omega arith)),
      record { room = omega arith; whole = filled.1 },
    )

pub pending-compress :
    (c : Context)
    → length c.block ≡ 64
    → c.block_used ≡ 64
    → (pending (compress c) ≡ (transform c.state (waiting c), [])) × IsContext (compress c)
unfolding compress
pending-compress c w u = (
  ap (λ b. (transform c.state b, [])) (sym (take-all c.block_used c.block (omega arith))),
  record { room = omega arith; whole = w },
)

-- Bytes with which the buffer is full.
pub fill-full :
    (c : Context) (xs : List ℕ)
    → IsContext c
    → c.block_used + length xs ≡ 64
    → (pending (compress (fill c xs)) ≡ absorb transform (pending c) xs)
      × IsContext (compress (fill c xs))
fill-full c xs fits h =
    let filled = pending-fill c xs fits.whole (omega arith) in
    let used = length-waiting c fits.whole (omega arith) in
    let done = pending-compress (fill c xs) filled.1 (omega arith) in
    (
      done.0
          ∙ (ap (λ (q : State × List ℕ). (transform q.0 q.1, [])) filled.0
              ∙ sym (absorb_full transform xs c.state (waiting c) (omega arith) (omega arith))),
      done.1,
    )

module _ (c : Context) (input : List ℕ) where
  abbrev amount : ℕ
  amount = min (length input) (64 - c.block_used)

  pending-update_step :
      IsContext c
      → (pending (update_step c input) ≡ absorb transform (pending c) (take amount input))
        × IsContext (update_step c input)
  unfolding update_step
  pending-update_step fits =
      if_intro (λ d. (pending d ≡ absorb transform (pending c) (take amount input)) × IsContext d)
        ((fill c (take amount input)).block_used == 64) (compress (fill c (take amount input)))
        (fill c (take amount input))
        (λ e.
          fill-full c (take amount input) fits
            (sym filled.2 ∙ (==_iff (fill c (take amount input)).block_used 64).0 e))
        (λ e. fill-partial c (take amount input) fits (ground (arith, filled.2, taken)))
    where
      taken : length (take amount input) ≡ amount
      taken = omega (arith, length-take {0} amount input)

      filled :
          (pending (fill c (take amount input)) ≡ (c.state, waiting c ++ take amount input))
          × (length (fill c (take amount input)).block ≡ 64)
          × ((fill c (take amount input)).block_used ≡ c.block_used + length (take amount input))
      filled = pending-fill c (take amount input) fits.whole (omega (arith, taken, fits.room))

total_bytes-update_step :
    (c : Context) (input : List ℕ) → (update_step c input).total_bytes ≡ c.total_bytes
unfolding update_step fill compress
total_bytes-update_step c input = ground arith

-- The loop takes in all of the input.
pub pending-update_loop :
    (fuel : ℕ) (c : Context) (input : List ℕ)
    → length input ≤ fuel
    → IsContext c
    → (pending (update_loop fuel c input) ≡ absorb transform (pending c) input)
      × IsContext (update_loop fuel c input)
unfolding update_loop
pending-update_loop zero c [] h fits = (refl, fits)
pending-update_loop zero c (x ∷ xs) h fits = absurd (omega arith)
pending-update_loop (suc fuel) c [] h fits = (refl, fits)
pending-update_loop (suc fuel) c (x ∷ xs) h fits =
    let n : ℕ = amount c (x ∷ xs) in
    let step = pending-update_step c (x ∷ xs) fits in
    let rest =
      pending-update_loop fuel (update_step c (x ∷ xs)) (drop n (x ∷ xs))
        (omega (arith, length-drop {0} (amount c (x ∷ xs)) (x ∷ xs), fits.room)) step.1 in
    (
      rest.0
          ∙ (ap (λ q. absorb transform q (drop n (x ∷ xs))) step.0
              ∙ (sym (absorb-append transform (pending c) (take n (x ∷ xs)) (drop n (x ∷ xs)))
                  ∙ ap (absorb transform (pending c)) (take-append-drop n (x ∷ xs)))),
      rest.1,
    )

pub total_bytes-update_loop :
    (fuel : ℕ) (c : Context) (input : List ℕ)
    → (update_loop fuel c input).total_bytes ≡ c.total_bytes
unfolding update_loop
total_bytes-update_loop zero c input = refl
total_bytes-update_loop (suc fuel) c [] = refl
total_bytes-update_loop (suc fuel) c (x ∷ xs) =
    total_bytes-update_loop fuel (update_step c (x ∷ xs)) (drop (amount c (x ∷ xs)) (x ∷ xs)) ∙ same
  where
    same : (update_step c (x ∷ xs)).total_bytes ≡ c.total_bytes
    same = total_bytes-update_step c (x ∷ xs)
