-- ===== src/Activation/Reading.antt =====
-- `read_image` of src/activation.c over a file system without faults: short reads are put together.
use mathlib.Core.Path.{subst}
use native.Mathlib.Decide.{dec_lt}
use repair_box_psx_hdd_setup.Base.{
  ℕ, zero, suc, ◌+◌, ◌-◌, ◌≤◌, ◌<◌, ℤ, pos, negsuc, is_negative, ◌≡◌, refl, sym, ap, ap₂, ◌∙◌,
  false, List, [], ◌∷◌, ◌++◌, append_assoc, append-nil, length, take, drop, replicate, write_at,
  length-take, length-drop, take-all, take-add, write_at-zeros, arith,
}
use repair_box_psx_hdd_setup.FileXio.{FileXio, read_bytes}
use repair_box_psx_hdd_setup.FileXio.LawfulFile.{LawfulFile}
use repair_box_psx_hdd_setup.Hash.Sha1.{bootflag_sha1}
use repair_box_psx_hdd_setup.Bootflag.Scan.{bootflag_inspect_image}
use repair_box_psx_hdd_setup.Activation.Read.{
  ActivationFile, ReadState, read_loop, finish_read, read_image, hash_file, zero_file,
}

module _ (io : FileXio) where
  read_loop_step :
      (fuel : ℕ) (fd : ℤ) (s : ReadState) (w : io.World) (bytes : List ℕ)
      → s.offset < 512
      → (io.read fd (512 - s.offset) w).0 ≡ read_bytes bytes
      → 0 < length bytes
      → read_loop io (suc fuel) fd s w
        ≡ read_loop io fuel fd
            (record {
              buffer = write_at s.buffer s.offset bytes;
              offset = s.offset + length bytes;
              last_result = pos (length bytes);
            })
            (io.read fd (512 - s.offset) w).1
  unfolding read_loop
  read_loop_step fuel fd s w [] more e h = absurd (omega arith)
  read_loop_step fuel fd s w (x ∷ xs) more e h = ground (arith, e)

  read_loop_stop :
      (fuel : ℕ) (fd : ℤ) (s : ReadState) (w : io.World)
      → 512 ≤ s.offset
      → read_loop io (suc fuel) fd s w ≡ (s, w)
  unfolding read_loop
  read_loop_stop fuel fd s w full = ground arith

  -- What the loop keeps: the bytes read so far, with zeros behind them.
  record IsReadTo (content : List ℕ) (at : ℕ) (s : ReadState) : Type 0 where
    buffer : s.buffer ≡ take at content ++ replicate (512 - at) 0
    offset : s.offset ≡ at

  module _ {path : List ℕ} (file : LawfulFile io path) (content : List ℕ)
      (is_image : length content ≡ 512) where
    IsReadTo-step :
        (at n : ℕ) (s : ReadState) (r : ℤ)
        → IsReadTo content at s
        → at ≤ 512
        → n ≤ 512 - at
        → IsReadTo content (at + n) (record {
          buffer = write_at s.buffer s.offset (take n (drop at content));
          offset = s.offset + length (take n (drop at content));
          last_result = r;
        })
    IsReadTo-step at n s r i l' h =
        let bytes : List ℕ = take n (drop at content) in
        let head : List ℕ = take at content in
        let l = length-take {0} n (drop at content) in
        let m = length-drop {0} at content in
        let k = length-take {0} at content in
        let zeros : 512 - at - (0 + length bytes) ≡ 512 - (at + n) = omega arith in
        record {
          buffer =
              ap₂ (λ b o. write_at b o bytes) i.buffer i.offset
              ∙ (write_at-zeros head bytes at 0 (512 - at) (omega arith) (omega arith)
                  ∙ (ap (λ z. head ++ (bytes ++ replicate z 0)) zeros
                      ∙ (sym (append_assoc head bytes (replicate (512 - (at + n)) 0))
                          ∙ ap (λ t. t ++ replicate (512 - (at + n)) 0)
                              (sym (take-add at n content)))));
          offset = omega arith;
        }

    read_loop_reads :
        (fuel : ℕ) (fd : ℤ) (at : ℕ) (s : ReadState) (w : io.World)
        → 512 - at ≤ fuel
        → at ≤ 512
        → IsReadTo content at s
        → file.Reading fd content at w
        → IsReadTo content 512 (read_loop io fuel fd s w).0
          × file.Reading fd content 512 (read_loop io fuel fd s w).1
    read_loop_reads zero fd at s w h l i r =
        let e : at ≡ 512 = omega arith in
        (
          unfold read_loop in subst (λ k. IsReadTo content k s) e i,
          unfold read_loop in subst (λ k. file.Reading fd content k w) e r,
        )
    read_loop_reads (suc fuel) fd at s w h l i r = elim (dec_lt at 512) [
      | yes more ↦
          let got = file.reads fd content at (512 - s.offset) w r in
          let n : ℕ = got.0 in
          let some_byte : 0 < n = got.3 (omega arith) in
          let len : length (take n (drop at content)) ≡ n =
            omega (arith, length-take {0} n (drop at content), length-drop {0} at content) in
          rw
            (read_loop_step fuel fd s w (take n (drop at content)) (omega arith) got.1
              (omega arith))
            (read_loop_reads fuel fd (at + n) _ (io.read fd (512 - s.offset) w).1 (omega arith)
              (omega arith) (IsReadTo-step at n s _ i l (omega arith)) got.4)
      | no full ↦
          let e : at ≡ 512 = omega arith in
          rw (read_loop_stop fuel fd s w (omega arith))
            (subst (λ k. IsReadTo content k s) e i, subst (λ k. file.Reading fd content k w) e r)
    ]

    -- The parts of a file that was read whole.
    pub record IsWhole (stack : List ℕ) (f : ActivationFile) : Type 0 where
      pub bytes : f.bytes ≡ content
      pub size : f.size ≡ 512
      pub opened : is_negative f.open_result ≡ false
      pub extra : f.extra_read_result ≡ pos 0
      pub closed : is_negative f.close_result ≡ false
      pub inspection : f.inspection ≡ bootflag_inspect_image content 512
      pub sha1 : f.sha1 ≡ bootflag_sha1 (take 492 (drop 20 content))

    whole : List ℕ → List ℕ → ℕ → ℤ → ℕ → ActivationFile
    whole stack buffer fd last closed = hash_file stack (record zero_file {
      bytes = buffer;
      size = 512;
      open_result = pos fd;
      read_result = last;
      extra_read_result = pos 0;
      close_result = pos closed;
      inspection = bootflag_inspect_image buffer 512;
    })

    finish_read_eq :
        (stack : List ℕ) (fd k : ℕ) (s : ReadState) (w : io.World)
        → s.offset ≡ 512
        → (io.read (pos fd) 1 w).0 ≡ read_bytes []
        → (io.close (pos fd) (io.read (pos fd) 1 w).1).0 ≡ pos k
        → finish_read io stack (pos fd) s w ≡ (
          whole stack s.buffer fd s.last_result k,
          (io.close (pos fd) (io.read (pos fd) 1 w).1).1,
        )
    unfolding finish_read whole
    finish_read_eq stack fd k s w o e c = rw (o, e, c)

    whole-IsWhole :
        (stack buffer : List ℕ) (fd k : ℕ) (last : ℤ)
        → buffer ≡ content
        → IsWhole stack (whole stack buffer fd last k)
    unfolding whole hash_file
    whole-IsWhole stack buffer fd k last e = record {
      bytes = e;
      size = refl;
      opened = refl;
      extra = refl;
      closed = refl;
      inspection = ap (λ b. bootflag_inspect_image b 512) e;
      sha1 = ap (λ b. bootflag_sha1 (take 492 (drop 20 b))) e;
    }

    finish_read-IsWhole :
        (stack : List ℕ) (fd : ℕ) (s : ReadState) (w : io.World)
        → IsReadTo content 512 s
        → file.Reading (pos fd) content 512 w
        → IsWhole stack (finish_read io stack (pos fd) s w).0
          × file.Holds content (finish_read io stack (pos fd) s w).1
    finish_read-IsWhole stack fd s w i r =
        let got = file.reads (pos fd) content 512 1 w r in
        let none_left : got.0 ≡ 0 = omega arith in
        let empty : (io.read (pos fd) 1 w).0 ≡ read_bytes [] =
          got.1 ∙ ap (λ n. read_bytes (take n (drop 512 content))) none_left in
        let done = file.closes_read (pos fd) content (512 + got.0) (io.read (pos fd) 1 w).1 got.4 in
        let all : s.buffer ≡ content =
          i.buffer ∙ (append-nil (take 512 content) ∙ take-all 512 content (omega arith)) in
        rw (finish_read_eq stack fd done.0 s w i.offset empty done.1)
          (whole-IsWhole stack s.buffer fd done.0 s.last_result all, done.2)

    -- `read_image` over a file of 512 bytes reads it whole, however the reads are split, with results
    -- that say so, and leaves it as it was.
    pub read_image-IsWhole :
        (stack : List ℕ) (w : io.World)
        → file.Holds content w
        → IsWhole stack (read_image io stack path w).0
          × file.Holds content (read_image io stack path w).1
    unfolding read_image
    read_image-IsWhole stack w h =
        let opened = file.opens_read content w h in
        let start : ReadState = record {
          buffer = replicate 512 0;
          offset = 0;
          last_result = negsuc 0;
        } in
        let loop =
          read_loop_reads 512 (pos opened.0) 0 start (io.open_read path w).1 (omega arith)
            (omega arith) (record { buffer = refl; offset = refl }) opened.2 in
        rw opened.1 (
          finish_read-IsWhole stack opened.0
            (read_loop io 512 (pos opened.0) start (io.open_read path w).1).0
            (read_loop io 512 (pos opened.0) start (io.open_read path w).1).1 loop.0 loop.1)
