-- ===== src/Hash/Sha1/OneShot.antt =====
-- `bootflag_sha1` of src/bootflag.c against the padded message.
use repair_box_psx_hdd_setup.Base.{
  ℕ, zero, suc, ◌+◌, ◌-◌, ◌*◌, ◌/◌, ◌%◌, ◌≤◌, ◌≡◌, refl, sym, ap, ◌∙◌, ◌⊎◌, inl, inr, List, [], ◌∷◌,
  ◌++◌, append_assoc, append-nil, length, take, drop, replicate, write_at, length-append,
  length-take, length-drop, take-append, take-append-drop, take-all, take-add, write_at-zeros, u64,
  arith,
}
use repair_box_psx_hdd_setup.Hash.Padding.{
  absorb, absorb-append, absorb_full, absorb-fold_blocks, fold_blocks, be64, zero_count, padding,
  padded, length-padded, length-padding, reference,
}
use repair_box_psx_hdd_setup.Hash.Sha1.{
  Sha1State, sha1_transform, transform_blocks, tail_blocks, padded_size, finish_tail, sha1_state,
  sha1_digest_of, sha1_initial_state, bootflag_sha1,
}

absorb-transform_blocks :
    (n : ℕ) (s : Sha1State) (m : List ℕ)
    → n * 64 ≤ length m
    → absorb sha1_transform (s, []) (take (n * 64) m) ≡ (transform_blocks n s m, [])
unfolding transform_blocks
absorb-transform_blocks zero s m h = refl
absorb-transform_blocks (suc n) s m h =
    let e : suc n * 64 ≡ 64 + n * 64 = omega arith in
    ap (λ k. absorb sha1_transform (s, []) (take k m)) e
    ∙ (ap (absorb sha1_transform (s, [])) (take-add 64 (n * 64) m)
        ∙ (absorb-append sha1_transform (s, []) (take 64 m) (take (n * 64) (drop 64 m))
            ∙ (ap (λ q. absorb sha1_transform q (take (n * 64) (drop 64 m)))
                  (absorb_full sha1_transform (take 64 m) s [] (omega arith)
                    (omega (arith, length-take {0} 64 m)))
                ∙ absorb-transform_blocks n (sha1_transform s (take 64 m)) (drop 64 m)
                    (omega (arith, length-drop {0} 64 m)))))

-- The tail array is what is left of the padded message, and zeros behind it.
tail_blocks_lem :
    (rest : List ℕ) (size bits : ℕ)
    → length rest + 9 ≤ size
    → size ≤ 128
    → tail_blocks rest size bits
      ≡ (rest ++ (0x80 ∷ (replicate (size - 9 - length rest) 0 ++ be64 bits)))
        ++ replicate (128 - size) 0
unfolding tail_blocks
tail_blocks_lem rest size bits lo hi =
    let n : ℕ = length rest in
    let z : ℕ = size - 9 - length rest in
    let m : ℕ = 128 - (0 + n) - (0 + 1) in
    let joined = length-append {0} rest (0x80 ∷ []) in
    let last : m - (z + 8) ≡ 128 - size = omega arith in
    ap (λ t. write_at (write_at t n (0x80 ∷ [])) (size - 8) (be64 bits))
      (write_at-zeros [] rest 0 0 128 (omega arith) (omega arith))
    ∙ (ap (λ t. write_at t (size - 8) (be64 bits))
          (write_at-zeros rest (0x80 ∷ []) n 0 (128 - (0 + n)) (omega arith) (omega arith)
            ∙ sym (append_assoc rest (0x80 ∷ []) (replicate m 0)))
        ∙ (write_at-zeros (rest ++ (0x80 ∷ [])) (be64 bits) (size - 8) z m (omega arith)
              (omega arith)
            ∙ (ap (λ k. (rest ++ (0x80 ∷ [])) ++ (replicate z 0 ++ (be64 bits ++ replicate k 0)))
                  last
                ∙ simp append_assoc)))

module _ (s : Sha1State) (x : List ℕ) where
  finish_one :
      (tail : List ℕ)
      → length x ≡ 64
      → tail ≡ x ++ replicate 64 0
      → finish_tail 64 s tail ≡ fold_blocks sha1_transform 1 s x
  unfolding finish_tail
  finish_one tail h e =
      ap (sha1_transform s)
        (ap (take 64) e ∙ (take-append 64 x (replicate 64 0) h ∙ sym (take-all 64 x (omega arith))))

  finish_two : finish_tail 128 s x ≡ fold_blocks sha1_transform 2 s x
  unfolding finish_tail
  finish_two = refl

module _ (m : List ℕ) where
  abbrev rest : List ℕ
  rest = drop (length m / 64 * 64) m

  abbrev last : List ℕ
  last = rest ++ padding (length m)

  abbrev size : ℕ
  size = padded_size (length rest)

  length-rest : length rest ≡ length m % 64
  length-rest = omega (arith, length-drop {0} (length m / 64 * 64) m)

  size_lem :
      (length rest + 9 ≤ size) × (size ≤ 128) × (size - 9 - length rest ≡ zero_count (length m))
  size_lem = ground (arith, length-rest)

  last_tail : tail_blocks rest size (u64 (length m * 8)) ≡ last ++ replicate (128 - size) 0
  last_tail =
      tail_blocks_lem rest size (u64 (length m * 8)) size_lem.0 size_lem.1
      ∙ ap
          (λ z.
            (rest ++ (0x80 ∷ (replicate z 0 ++ be64 (u64 (length m * 8)))))
            ++ replicate (128 - size) 0)
          size_lem.2

  length-last : length last ≡ size
  length-last = ground (
    arith,
    size_lem,
    length-rest,
    length-append {0} rest (padding (length m)),
    length-padding (length m),
  )

  size-cases : (size ≡ 64) ⊎ (size ≡ 128)
  size-cases = ground arith

  abbrev tail : List ℕ
  tail = tail_blocks rest size (u64 (length m * 8))

  finish_lem : (s : Sha1State) → (finish_tail size s tail, []) ≡ absorb sha1_transform (s, []) last
  finish_lem s = elim size-cases [
    | inl short ↦
        ap (λ z. (finish_tail z s tail, [])) short
        ∙ (ap (λ q. (q, []))
              (finish_one s last tail (length-last ∙ short)
                (last_tail ∙ ap (λ z. last ++ replicate (128 - z) 0) short))
            ∙ sym (absorb-fold_blocks sha1_transform 1 s last (length-last ∙ short)))
    | inr long ↦
        ap (λ z. (finish_tail z s tail, [])) long
        ∙ (ap (λ t. (finish_tail 128 s t, []))
              (last_tail ∙ (ap (λ z. last ++ replicate (128 - z) 0) long ∙ append-nil last))
            ∙ (ap (λ q. (q, [])) (finish_two s last)
                ∙ sym (absorb-fold_blocks sha1_transform 2 s last (length-last ∙ long))))
  ]

  message_parts : take (length m / 64 * 64) m ++ last ≡ padded m
  message_parts =
      sym (append_assoc (take (length m / 64 * 64) m) rest (padding (length m)))
      ∙ ap (λ t. t ++ padding (length m)) (take-append-drop (length m / 64 * 64) m)

  sha1_state_lem : sha1_state m ≡ reference sha1_transform sha1_initial_state m
  unfolding sha1_state
  sha1_state_lem =
      let start : Sha1State × List ℕ = (sha1_initial_state, []) in
      let full : List ℕ = take (length m / 64 * 64) m in
      ap (λ (q : Sha1State × List ℕ). q.0)
        (finish_lem (transform_blocks (length m / 64) sha1_initial_state m)
          ∙ (ap (λ q. absorb sha1_transform q last)
                (sym (absorb-transform_blocks (length m / 64) sha1_initial_state m (omega arith)))
              ∙ (sym (absorb-append sha1_transform start full last)
                  ∙ (ap (absorb sha1_transform start) message_parts
                      ∙ absorb-fold_blocks sha1_transform (length (padded m) / 64)
                          sha1_initial_state (padded m) (length-padded m)))))

-- `bootflag_sha1` is the padded block fold of FIPS 180-4 over SHA-1's compression, for inputs of
-- every length: its split into full blocks, a tail of one or two blocks and the length bytes at the
-- end of the tail is that of the padded message.
pub bootflag_sha1_lem :
    (m : List ℕ) → bootflag_sha1 m ≡ sha1_digest_of (reference sha1_transform sha1_initial_state m)
unfolding bootflag_sha1
bootflag_sha1_lem m = ap sha1_digest_of (sha1_state_lem m)
