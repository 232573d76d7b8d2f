-- ===== src/Hash/Sha256.antt =====
-- src/sha256.c: the compression function, and the streaming interface `sha256_init`,
-- `sha256_update`, `sha256_final` over a context with a 64-byte buffer. `uint32_t` arithmetic wraps
-- at 2 ^ 32, and `total_bytes` at 2 ^ 64.
pub mod Streaming
pub mod Final
use repair_box_psx_hdd_setup.Base.{
  ℕ, zero, suc, ◌+◌, ◌-◌, ◌*◌, ◌/◌, ◌%◌, ◌^◌, min, bit_and, bit_or, bit_xor, List, [], ◌∷◌, ◌++◌,
  length, get_or, take, drop, replicate, write_at, u8, u32, u64, ◌<<<◌, ◌>>>◌, not32, ltb, ◌==◌,
  if◌then◌else◌,
}
use repair_box_psx_hdd_setup.Hash.Padding.{be64}

abbrev round_constants : List ℕ
round_constants =
    0x428a2f98 ∷ 0x71374491 ∷ 0xb5c0fbcf ∷ 0xe9b5dba5 ∷ 0x3956c25b ∷ 0x59f111f1 ∷ 0x923f82a4
    ∷ 0xab1c5ed5 ∷ 0xd807aa98 ∷ 0x12835b01 ∷ 0x243185be ∷ 0x550c7dc3 ∷ 0x72be5d74 ∷ 0x80deb1fe
    ∷ 0x9bdc06a7 ∷ 0xc19bf174 ∷ 0xe49b69c1 ∷ 0xefbe4786 ∷ 0x0fc19dc6 ∷ 0x240ca1cc ∷ 0x2de92c6f
    ∷ 0x4a7484aa ∷ 0x5cb0a9dc ∷ 0x76f988da ∷ 0x983e5152 ∷ 0xa831c66d ∷ 0xb00327c8 ∷ 0xbf597fc7
    ∷ 0xc6e00bf3 ∷ 0xd5a79147 ∷ 0x06ca6351 ∷ 0x14292967 ∷ 0x27b70a85 ∷ 0x2e1b2138 ∷ 0x4d2c6dfc
    ∷ 0x53380d13 ∷ 0x650a7354 ∷ 0x766a0abb ∷ 0x81c2c92e ∷ 0x92722c85 ∷ 0xa2bfe8a1 ∷ 0xa81a664b
    ∷ 0xc24b8b70 ∷ 0xc76c51a3 ∷ 0xd192e819 ∷ 0xd6990624 ∷ 0xf40e3585 ∷ 0x106aa070 ∷ 0x19a4c116
    ∷ 0x1e376c08 ∷ 0x2748774c ∷ 0x34b0bcb5 ∷ 0x391c0cb3 ∷ 0x4ed8aa4a ∷ 0x5b9cca4f ∷ 0x682e6ff3
    ∷ 0x748f82ee ∷ 0x78a5636f ∷ 0x84c87814 ∷ 0x8cc70208 ∷ 0x90befffa ∷ 0xa4506ceb ∷ 0xbef9a3f7
    ∷ 0xc67178f2 ∷ []

-- `uint32_t state[8]`, and the variables `a` to `h` of `transform`.
pub record State : Type 0 where
  pub a : ℕ
  pub b : ℕ
  pub c : ℕ
  pub d : ℕ
  pub e : ℕ
  pub f : ℕ
  pub g : ℕ
  pub h : ℕ

unfoldable pub rotate_right : ℕ → ℕ → ℕ
rotate_right value bits = bit_or (value >>> bits) (value <<< (32 - bits))

pub read_be32 : List ℕ → ℕ → ℕ
read_be32 input at =
    bit_or
      (bit_or (bit_or (get_or input at 0 <<< 24) (get_or input (at + 1) 0 <<< 16))
        (get_or input (at + 2) 0 <<< 8))
      (get_or input (at + 3) 0)

-- `words[0 .. 15]`, from the index of the word to read and the count of words left.
pub load_words : List ℕ → ℕ → ℕ → List ℕ
load_words block index zero = []
load_words block index (suc left) = read_be32 block (index * 4) ∷ load_words block (index + 1) left

-- `words[index]` from the words before it, for an index from 16 on.
pub next_word : List ℕ → ℕ → ℕ
next_word words index =
    let w15 = get_or words (index - 15) 0 in
    let w2 = get_or words (index - 2) 0 in
    let s0 = bit_xor (bit_xor (rotate_right w15 7) (rotate_right w15 18)) (w15 >>> 3) in
    let s1 = bit_xor (bit_xor (rotate_right w2 17) (rotate_right w2 19)) (w2 >>> 10) in
    u32 (get_or words (index - 16) 0 + s0 + get_or words (index - 7) 0 + s1)

pub extend_words : ℕ → ℕ → List ℕ → List ℕ
extend_words zero index words = words
extend_words (suc left) index words =
    extend_words left (index + 1) (words ++ (next_word words index ∷ []))

-- One of the 64 rounds, with its constant and its word.
pub round : ℕ → ℕ → State → State
round constant word s =
    let sum1 = bit_xor (bit_xor (rotate_right s.e 6) (rotate_right s.e 11)) (rotate_right s.e 25) in
    let choose = bit_xor (bit_and s.e s.f) (bit_and (not32 s.e) s.g) in
    let temporary1 = u32 (s.h + sum1 + choose + constant + word) in
    let sum0 = bit_xor (bit_xor (rotate_right s.a 2) (rotate_right s.a 13)) (rotate_right s.a 22) in
    let majority = bit_xor (bit_xor (bit_and s.a s.b) (bit_and s.a s.c)) (bit_and s.b s.c) in
    let temporary2 = u32 (sum0 + majority) in
    record {
      a = u32 (temporary1 + temporary2);
      b = s.a;
      c = s.b;
      d = s.c;
      e = u32 (s.d + temporary1);
      f = s.e;
      g = s.f;
      h = s.g;
    }

pub rounds : List ℕ → List ℕ → State → State
rounds [] words s = s
rounds (constant ∷ constants) [] s = s
rounds (constant ∷ constants) (word ∷ words) s = rounds constants words (round constant word s)

unfoldable pub transform : State → List ℕ → State
unfolding rounds round extend_words next_word load_words read_be32 rotate_right
transform s block =
    let t = rounds round_constants (extend_words 48 16 (load_words block 0 16)) s in
    record {
      a = u32 (s.a + t.a);
      b = u32 (s.b + t.b);
      c = u32 (s.c + t.c);
      d = u32 (s.d + t.d);
      e = u32 (s.e + t.e);
      f = u32 (s.f + t.f);
      g = u32 (s.g + t.g);
      h = u32 (s.h + t.h);
    }

pub record Context : Type 0 where
  pub state : State
  pub total_bytes : ℕ
  pub block : List ℕ
  pub block_used : ℕ

abbrev pub initial_state : State
initial_state = record {
  a = 0x6a09e667;
  b = 0xbb67ae85;
  c = 0x3c6ef372;
  d = 0xa54ff53a;
  e = 0x510e527f;
  f = 0x9b05688c;
  g = 0x1f83d9ab;
  h = 0x5be0cd19;
}

-- `sha256_init` leaves the 64 bytes of the buffer as they were.
unfoldable pub sha256_init : List ℕ → Context
sha256_init block = record { state = initial_state; total_bytes = 0; block = block; block_used = 0 }

-- Bytes are copied into the buffer behind those that wait there, and counted.
pub fill : Context → List ℕ → Context
fill context bytes = record context {
  block = write_at context.block context.block_used bytes;
  block_used = context.block_used + length bytes;
}

-- The buffer is compressed into the state, and is empty afterwards.
pub compress : Context → Context
compress context = record context { state = transform context.state context.block; block_used = 0 }

-- The body of the loop of `sha256_update`.
pub update_step : Context → List ℕ → Context
update_step context input =
    let filled = fill context (take (min (length input) (64 - context.block_used)) input) in
    if filled.block_used == 64 then compress filled else filled

-- The loop, with fuel: a round takes at least one byte while the buffer has room, so the size of
-- the input is enough.
pub update_loop : ℕ → Context → List ℕ → Context
update_loop zero context input = context
update_loop (suc fuel) context [] = context
update_loop (suc fuel) context (x ∷ xs) =
    update_loop fuel (update_step context (x ∷ xs))
      (drop (min (length (x ∷ xs)) (64 - context.block_used)) (x ∷ xs))

unfoldable pub sha256_update : Context → List ℕ → Context
unfolding update_loop update_step fill compress
sha256_update context input =
    update_loop (length input)
      (record context { total_bytes = u64 (context.total_bytes + length input) }) input

-- `sha256_final` up to the first `transform`: the byte 0x80, and where it leaves no room for the
-- length, zeros up to the end of the block.
pub close_block : Context → Context
close_block context =
    let marked = fill context (0x80 ∷ []) in
    if ltb 56 marked.block_used
    then compress (fill marked (replicate (64 - marked.block_used) 0))
    else marked

-- `sha256_final` from there to the last `transform`. `memset` and the loop over the length bytes do
-- not count `block_used` up; it is not read again.
pub last_block : Context → Context
last_block context =
    let zeroed = fill context (replicate (56 - context.block_used) 0) in
    compress (fill zeroed (be64 (u64 (context.total_bytes * 8))))

unfoldable pub store_be32 : ℕ → List ℕ
store_be32 value = u8 (value >>> 24) ∷ u8 (value >>> 16) ∷ u8 (value >>> 8) ∷ u8 value ∷ []

unfoldable pub digest_of : State → List ℕ
unfolding store_be32
digest_of s =
    store_be32 s.a
    ++ (store_be32 s.b
        ++ (store_be32 s.c
            ++ (store_be32 s.d
                ++ (store_be32 s.e ++ (store_be32 s.f ++ (store_be32 s.g ++ store_be32 s.h))))))

-- The digest; the context is cleared afterwards.
unfoldable pub sha256_final : Context → List ℕ
unfolding close_block last_block fill compress digest_of
sha256_final context = digest_of (last_block (close_block context)).state
