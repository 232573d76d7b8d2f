-- ===== src/Bootstrap/Hashing.antt =====
-- The first half of `bootstrap_validate_usb` of src/bootstrap.c over a file system without faults:
-- however the reads are split, the digest is that of the whole file.
use repair_box_psx_hdd_setup.Base.{
  ℕ, zero, suc, ◌+◌, ◌≤◌, ◌<◌, ℤ, pos, is_negative, ◌==ℤ◌, ◌≡◌, refl, sym, ap, ◌∙◌, ◌↔◌, Bool, true,
  false, not, ◌&&◌, List, [], ◌∷◌, length, take, drop, length-take, length-drop, take-add, take-all,
  ltb, ◌==◌, ==_iff, u32, if◌then◌else◌, arith,
}
use mathlib.Core.Path.{subst}
use native.Mathlib.Decide.{dec_lt}
use repair_box_psx_hdd_setup.FileXio.{FileXio, read_bytes}
use repair_box_psx_hdd_setup.FileXio.LawfulFile.{LawfulFile}
use repair_box_psx_hdd_setup.Hash.Padding.{reference}
use repair_box_psx_hdd_setup.Hash.Sha256.{
  Context, sha256_init, sha256_update, transform, initial_state, digest_of,
}
use repair_box_psx_hdd_setup.Hash.Sha256.Final.{
  Represents, sha256_init-Represents, sha256_update-Represents, sha256_final-Represents,
}
use repair_box_psx_hdd_setup.Xfrom.Copy.{SourceMedia, source_media_read_size}
use repair_box_psx_hdd_setup.Bootstrap.Validate.{
  bootstrap_byte_count, BootstrapResult, BootstrapPaths, binary_loop, hash_binary,
}

large : (b : Bool) → 0 < (if b && ltb 32768 65536 then 32768 else 65536)
large true = omega arith
large false = omega arith

read_size-positive : (media : SourceMedia) → 0 < source_media_read_size media 65536
unfolding source_media_read_size
read_size-positive media = large media.is_mmce

valid_iff :
    (last closed : ℤ) (size k : ℕ) {n : ℕ}
    → last ≡ pos 0
    → closed ≡ pos k
    → size ≡ n
    → (((last ==ℤ pos 0) && (not (is_negative closed) && (size == bootstrap_byte_count))) ≡ true)
      ↔ (n ≡ bootstrap_byte_count)
valid_iff last closed size k a b c = rw (a, b, c) (==_iff _ bootstrap_byte_count)

module _ (io : FileXio) (media : SourceMedia) (paths : BootstrapPaths) (stack : List ℕ) where
  binary_loop_step :
      (fuel : ℕ) (fd last : ℤ) (hash : Context) (size : ℕ) (w : io.World) (bytes : List ℕ)
      → (io.read fd (source_media_read_size media 65536) w).0 ≡ read_bytes bytes
      → 0 < length bytes
      → binary_loop io media paths stack (suc fuel) fd last hash size w
        ≡ binary_loop io media paths stack fuel fd
            (pos (length bytes))
            (sha256_update hash bytes)
            (u32 (size + length bytes))
            (io.read fd (source_media_read_size media 65536) w).1
  unfolding binary_loop
  binary_loop_step fuel fd last hash size w [] e h = absurd (omega arith)
  binary_loop_step fuel fd last hash size w (x ∷ xs) e h = rw (e, binary_loop) refl

  binary_loop_stop :
      (fuel : ℕ) (fd last : ℤ) (hash : Context) (size : ℕ) (w : io.World) (bytes : List ℕ)
      → (io.read fd (source_media_read_size media 65536) w).0 ≡ read_bytes bytes
      → length bytes ≡ 0
      → binary_loop io media paths stack (suc fuel) fd last hash size w
        ≡ ((pos 0, (hash, size)), (io.read fd (source_media_read_size media 65536) w).1)
  unfolding binary_loop
  binary_loop_stop fuel fd last hash size w [] e h = rw (e, binary_loop) refl
  binary_loop_stop fuel fd last hash size w (x ∷ xs) e h = absurd (omega arith)

  module _ {path : List ℕ} (file : LawfulFile io path) (content : List ℕ) where
    -- What the loop has made of the file when it ends.
    abbrev HasRead : ℤ → (ℤ × (Context × ℕ)) × io.World → Type 0
    HasRead fd out =
        (out.0.0 ≡ pos 0)
        × Represents out.0.1.0 content
        × (out.0.1.1 ≡ u32 (length content))
        × file.Reading fd content (length content) out.1

    binary_loop-HasRead :
        (fuel : ℕ) (fd last : ℤ) (hash : Context) (size at : ℕ) (w : io.World)
        → length content < fuel + at
        → at ≤ length content
        → Represents hash (take at content)
        → size ≡ u32 at
        → file.Reading fd content at w
        → HasRead fd (binary_loop io media paths stack fuel fd last hash size w)
    binary_loop-HasRead zero fd last hash size at w f b rep e r = absurd (omega arith)
    binary_loop-HasRead (suc fuel) fd last hash size at w f b rep e r =
        let request = source_media_read_size media 65536 in
        let got = file.reads fd content at request w r in
        let n : ℕ = got.0 in
        let bytes : List ℕ = take n (drop at content) in
        let len : length bytes ≡ n =
          omega (arith, length-take {0} n (drop at content), length-drop {0} at content, got.2) in
        elim (dec_lt at (length content)) [
          | yes more ↦
              let some_byte : 0 < n = got.3 (omega (arith, read_size-positive media)) in
              let rep' : Represents (sha256_update hash bytes) (take (at + n) content) =
                subst (Represents (sha256_update hash bytes)) (sym (take-add at n content))
                  (sha256_update-Represents hash (take at content) bytes rep) in
              let size' : u32 (size + length bytes) ≡ u32 (at + n) = omega (arith, e, len) in
              subst (HasRead fd)
                (sym (binary_loop_step fuel fd last hash size w bytes got.1 (omega (arith, len))))
                (binary_loop-HasRead fuel fd (pos (length bytes)) (sha256_update hash bytes)
                  (u32 (size + length bytes)) (at + n) _ (omega arith) (omega (arith, got.2)) rep'
                  size' got.4)
          | no done ↦
              let all : at ≡ length content = omega arith in
              let none_left : n ≡ 0 = omega (arith, got.2) in
              let whole : take at content ≡ content = take-all at content (omega arith) in
              let still : at + n ≡ length content = omega arith in
              subst (HasRead fd)
                (sym (binary_loop_stop fuel fd last hash size w bytes got.1 (omega (arith, len))))
                (
                  refl,
                  subst (Represents hash) whole rep,
                  e ∙ ap u32 all,
                  subst (λ k. file.Reading fd content k (io.read fd request w).1) still got.4,
                )
        ]

    -- A prefix that is open at its start is read to its end, whatever the reads give, where the fuel is
    -- greater than its size: the digest is the padded block fold of the content, the size is the
    -- content's, cut to 32 bits, the size is valid exactly when it is that of 0x27E7 sectors, and the
    -- file is closed with its content as it was.
    pub hash_binary_whole :
        (fuel fd : ℕ) (r : BootstrapResult) (w : io.World)
        → length stack ≡ 64
        → length content < fuel
        → r.binary_size ≡ 0
        → file.Reading (pos fd) content 0 w
        → let out = hash_binary io media paths stack fuel (pos fd) r w in
          (out.0.source_sha256 ≡ digest_of (reference transform initial_state content))
          × (out.0.binary_size ≡ u32 (length content))
          × ((out.0.size_valid ≡ true) ↔ (u32 (length content) ≡ bootstrap_byte_count))
          × file.Holds content out.1
    unfolding hash_binary
    hash_binary_whole fuel fd r w s f z h =
        let last = r.binary_final_read_result in
        let loop =
          binary_loop io media paths stack fuel (pos fd) last (sha256_init stack) r.binary_size w in
        let read =
          binary_loop-HasRead fuel (pos fd) last (sha256_init stack) r.binary_size 0 w (omega arith)
            (omega arith) (sha256_init-Represents stack s) z h in
        let closed = file.closes_read (pos fd) content (length content) loop.1 read.3 in
        (
          sha256_final-Represents loop.0.1.0 content read.1,
          read.2,
          valid_iff loop.0.0 (io.close (pos fd) loop.1).0 loop.0.1.1 closed.0 read.0 closed.1
              read.2,
          closed.2,
        )
