-- ===== src/Hash/Sha1.antt =====
-- The SHA-1 of src/bootflag.c, which hashes a whole buffer at once. src/bootflag_ro.c holds a copy of
-- the same text, which this module stands for as well.
pub mod OneShot
use repair_box_psx_hdd_setup.Base.{
  ℕ, zero, suc, ◌+◌, ◌-◌, ◌*◌, ◌/◌, ◌%◌, ◌^◌, bit_and, bit_or, bit_xor, List, [], ◌∷◌, ◌++◌, length,
  get_or, take, drop, replicate, write_at, u8, u32, u64, ◌<<<◌, ◌>>>◌, not32, ltb, ◌==◌,
  if◌then◌else◌,
}
use repair_box_psx_hdd_setup.Hash.Padding.{be64}

-- `u32 state[5]`, and the variables `a` to `e` of `sha1_transform`.
pub record Sha1State : Type 0 where
  pub a : ℕ
  pub b : ℕ
  pub c : ℕ
  pub d : ℕ
  pub e : ℕ

rotate_left : ℕ → ℕ → ℕ
rotate_left value count = bit_or (value <<< count) (value >>> (32 - count))

load_be32 : List ℕ → ℕ → ℕ
load_be32 bytes at =
    bit_or
      (bit_or (bit_or (get_or bytes at 0 <<< 24) (get_or bytes (at + 1) 0 <<< 16))
        (get_or bytes (at + 2) 0 <<< 8))
      (get_or bytes (at + 3) 0)

unfoldable pub sha1_store_be32 : ℕ → List ℕ
sha1_store_be32 value = u8 (value >>> 24) ∷ u8 (value >>> 16) ∷ u8 (value >>> 8) ∷ u8 value ∷ []

sha1_load_words : List ℕ → ℕ → ℕ → List ℕ
sha1_load_words block index zero = []
sha1_load_words block index (suc left) =
    load_be32 block (index * 4) ∷ sha1_load_words block (index + 1) left

-- `words[16 .. 79]`
sha1_extend_words : ℕ → ℕ → List ℕ → List ℕ
sha1_extend_words zero index words = words
sha1_extend_words (suc left) index words = sha1_extend_words left (index + 1) (
    words
    ++ (rotate_left
          (bit_xor
            (bit_xor (bit_xor (get_or words (index - 3) 0) (get_or words (index - 8) 0))
              (get_or words (index - 14) 0))
            (get_or words (index - 16) 0))
          1
        ∷ []))

-- `function` and `constant` of round `index`.
round_function : ℕ → Sha1State → ℕ
round_function index s =
    if ltb index 20
    then bit_or (bit_and s.b s.c) (bit_and (not32 s.b) s.d)
    else if ltb index 40
    then bit_xor (bit_xor s.b s.c) s.d
    else if ltb index 60
    then bit_or (bit_or (bit_and s.b s.c) (bit_and s.b s.d)) (bit_and s.c s.d)
    else bit_xor (bit_xor s.b s.c) s.d

round_constant : ℕ → ℕ
round_constant index =
    if ltb index 20
    then 0x5a827999
    else if ltb index 40
    then 0x6ed9eba1
    else if ltb index 60
    then 0x8f1bbcdc
    else 0xca62c1d6

sha1_round : ℕ → ℕ → Sha1State → Sha1State
sha1_round index word s = record {
  a = u32 (rotate_left s.a 5 + round_function index s + s.e + round_constant index + word);
  b = s.a;
  c = rotate_left s.b 30;
  d = s.c;
  e = s.d;
}

sha1_rounds : ℕ → List ℕ → Sha1State → Sha1State
sha1_rounds index [] s = s
sha1_rounds index (word ∷ words) s = sha1_rounds (index + 1) words (sha1_round index word s)

unfoldable pub sha1_transform : Sha1State → List ℕ → Sha1State
unfolding sha1_rounds sha1_round round_constant round_function sha1_extend_words sha1_load_words
    load_be32 rotate_left
sha1_transform s block =
    let t = sha1_rounds 0 (sha1_extend_words 64 16 (sha1_load_words block 0 16)) s in
    record {
      a = u32 (s.a + t.a);
      b = u32 (s.b + t.b);
      c = u32 (s.c + t.c);
      d = u32 (s.d + t.d);
      e = u32 (s.e + t.e);
    }

abbrev pub sha1_initial_state : Sha1State
sha1_initial_state = record {
  a = 0x67452301;
  b = 0xefcdab89;
  c = 0x98badcfe;
  d = 0x10325476;
  e = 0xc3d2e1f0;
}

-- The loop over the full blocks of the input.
pub transform_blocks : ℕ → Sha1State → List ℕ → Sha1State
transform_blocks zero s input = s
transform_blocks (suc left) s input =
    transform_blocks left (sha1_transform s (take 64 input)) (drop 64 input)

-- `u8 tail[128]`: the bytes behind the full blocks, 0x80, zeros, and the length in bits at the end
-- of the padded part.
pub tail_blocks : List ℕ → ℕ → ℕ → List ℕ
tail_blocks rest padded_size bit_length =
    write_at (write_at (write_at (replicate 128 0) 0 rest) (length rest) (0x80 ∷ []))
      (padded_size - 8) (be64 bit_length)

abbrev pub padded_size : ℕ → ℕ
padded_size remaining = if ltb remaining 56 then 64 else 128

-- One transform of the tail, or two.
pub finish_tail : ℕ → Sha1State → List ℕ → Sha1State
finish_tail size s tail =
    let first = sha1_transform s (take 64 tail) in
    if size == 128 then sha1_transform first (take 64 (drop 64 tail)) else first

-- `bootflag_sha1` before the digest is stored.
pub sha1_state : List ℕ → Sha1State
sha1_state input =
    let full_blocks = length input / 64 in
    let rest = drop (full_blocks * 64) input in
    let size = padded_size (length rest) in
    finish_tail size (transform_blocks full_blocks sha1_initial_state input)
      (tail_blocks rest size (u64 (length input * 8)))

unfoldable pub sha1_digest_of : Sha1State → List ℕ
unfolding sha1_store_be32
sha1_digest_of s =
    sha1_store_be32 s.a
    ++ (sha1_store_be32 s.b
        ++ (sha1_store_be32 s.c ++ (sha1_store_be32 s.d ++ sha1_store_be32 s.e)))

unfoldable pub bootflag_sha1 : List ℕ → List ℕ
unfolding sha1_state finish_tail transform_blocks tail_blocks sha1_digest_of
bootflag_sha1 input = sha1_digest_of (sha1_state input)
