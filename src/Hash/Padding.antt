-- ===== src/Hash/Padding.antt =====
-- The padding that FIPS 180-4 gives for SHA-1 and SHA-256, and the fold of a compression function
-- over the 64-byte blocks of a padded message. This is the description that the code in
-- src/sha256.c and src/bootflag.c is compared with; no definition here models code.
use mathlib.Core.List.{foldl-append}
use native.Mathlib.Decide.{dec_lt}
use repair_box_psx_hdd_setup.Base.{
  ℕ, zero, suc, ◌+◌, ◌-◌, ◌*◌, ◌/◌, ◌%◌, ◌^◌, ◌<◌, ◌≡◌, refl, sym, ap, ◌∙◌, List, [], ◌∷◌, ◌++◌,
  foldl, append-nil, append_assoc, length, take, drop, replicate, length-append, length-take,
  length-drop, length-replicate, take-append-drop, u8, u64, ◌==◌, if◌then◌else◌, arith,
}

-- A 64-bit number, most significant byte first.
abbrev pub be64 : ℕ → List ℕ
be64 n =
    u8 (n / 2 ^ 56)
    ∷ u8 (n / 2 ^ 48)
    ∷ u8 (n / 2 ^ 40)
    ∷ u8 (n / 2 ^ 32)
    ∷ u8 (n / 2 ^ 24)
    ∷ u8 (n / 2 ^ 16)
    ∷ u8 (n / 2 ^ 8)
    ∷ u8 n
    ∷ []

-- The zeros between the byte 0x80 and the length, for a message of `n` bytes.
abbrev pub zero_count : ℕ → ℕ
zero_count n = (119 - n % 64) % 64

-- What is appended to a message of `n` bytes.
abbrev pub padding : ℕ → List ℕ
padding n = 0x80 ∷ (replicate (zero_count n) 0 ++ be64 (u64 (n * 8)))

abbrev pub padded : List ℕ → List ℕ
padded message = message ++ padding (length message)

pub length-padding : (n : ℕ) → length (padding n) ≡ 9 + zero_count n
length-padding n = omega (
  arith,
  length-append {0} (replicate (zero_count n) 0) (be64 (u64 (n * 8))),
  length-replicate {0} {A = ℕ} (zero_count n) 0,
)

pub length-padded : (m : List ℕ) → length (padded m) ≡ length (padded m) / 64 * 64
length-padded m = omega (arith, length-append {0} m (padding (length m)), length-padding (length m))

module _ {S : Type 0} (compress : S → List ℕ → S) where
  -- The first `n` blocks of a message, one after the other.
  abbrev pub fold_blocks : ℕ → S → List ℕ → S
  fold_blocks zero s m = s
  fold_blocks (suc n) s m = fold_blocks n (compress s (take 64 m)) (drop 64 m)

  -- The hash state of a whole message.
  abbrev pub reference : S → List ℕ → S
  reference s m = fold_blocks (length (padded m) / 64) s (padded m)

  -- One byte at a time: the bytes of the block that is not full yet are kept.
  pub push : S × List ℕ → ℕ → S × List ℕ
  push (s, p) b =
      if length (p ++ (b ∷ [])) == 64 then (compress s (p ++ (b ∷ [])), []) else (s, p ++ (b ∷ []))

  abbrev pub absorb : S × List ℕ → List ℕ → S × List ℕ
  absorb = foldl push

  pub absorb-append :
      (c : S × List ℕ) (xs ys : List ℕ) → absorb c (xs ++ ys) ≡ absorb (absorb c xs) ys
  absorb-append c xs ys = foldl-append push c xs ys

  push_partial :
      (s : S) (p : List ℕ) (b : ℕ) → length p + 1 < 64 → push (s, p) b ≡ (s, p ++ (b ∷ []))
  unfolding push
  push_partial s p b h = ground (arith, length-append {0} p (b ∷ []))

  push_full :
      (s : S) (p : List ℕ) (b : ℕ)
      → length p + 1 ≡ 64
      → push (s, p) b ≡ (compress s (p ++ (b ∷ [])), [])
  unfolding push
  push_full s p b h = ground (arith, length-append {0} p (b ∷ []))

  -- Bytes that do not fill the block are kept.
  pub absorb_partial :
      (xs : List ℕ) (s : S) (p : List ℕ)
      → length p + length xs < 64
      → absorb (s, p) xs ≡ (s, p ++ xs)
  absorb_partial [] s p h = rw append-nil
  absorb_partial (x ∷ xs) s p h = rw (push_partial s p x (omega arith)) (
      absorb_partial xs s (p ++ (x ∷ [])) (omega (arith, length-append {0} p (x ∷ [])))
      ∙ rw append_assoc)

  -- Bytes that fill the block are compressed with it.
  pub absorb_full :
      (xs : List ℕ) (s : S) (p : List ℕ)
      → length p < 64
      → length p + length xs ≡ 64
      → absorb (s, p) xs ≡ (compress s (p ++ xs), [])
  absorb_full [] s p l h = absurd (omega arith)
  absorb_full (x ∷ []) s p l h = push_full s p x (omega arith)
  absorb_full (x ∷ y ∷ xs) s p l h = rw (push_partial s p x (omega arith)) (
      absorb_full (y ∷ xs) s (p ++ (x ∷ [])) (omega (arith, length-append {0} p (x ∷ [])))
        (omega (arith, length-append {0} p (x ∷ [])))
      ∙ rw append_assoc)

  -- Over whole blocks, byte by byte is block by block.
  pub absorb-fold_blocks :
      (n : ℕ) (s : S) (m : List ℕ) → length m ≡ n * 64 → absorb (s, []) m ≡ (fold_blocks n s m, [])
  absorb-fold_blocks zero s [] h = refl
  absorb-fold_blocks zero s (x ∷ m) h = absurd (omega arith)
  absorb-fold_blocks (suc n) s m h =
      ap (absorb (s, [])) (sym parts)
      ∙ (absorb-append (s, []) (take 64 m) (drop 64 m)
          ∙ (ap (λ c. absorb c (drop 64 m)) head
              ∙ absorb-fold_blocks n (compress s (take 64 m)) (drop 64 m)
                  (omega (arith, length-drop {0} 64 m))))
    where
      parts : take 64 m ++ drop 64 m ≡ m
      parts = take-append-drop 64 m

      head : absorb (s, []) (take 64 m) ≡ (compress s (take 64 m), [])
      head = absorb_full (take 64 m) s [] (omega arith) (omega (arith, length-take {0} 64 m))

  -- How many bytes wait after a message.
  pub length-absorb :
      (xs : List ℕ) (s : S) (p : List ℕ)
      → length p < 64
      → length (absorb (s, p) xs).1 ≡ (length p + length xs) % 64
  length-absorb [] s p h = omega arith
  length-absorb (x ∷ xs) s p h = elim (dec_lt (length p + 1) 64) [
    | yes l ↦
        ap (λ c. length (absorb c xs).1) (push_partial s p x l)
        ∙ (length-absorb xs s (p ++ (x ∷ [])) (omega (arith, length-append {0} p (x ∷ [])))
            ∙ omega (arith, length-append {0} p (x ∷ [])))
    | no l ↦
        ap (λ c. length (absorb c xs).1) (push_full s p x (omega arith))
        ∙ (length-absorb xs (compress s (p ++ (x ∷ []))) [] (omega arith) ∙ omega arith)
  ]
