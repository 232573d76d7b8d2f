-- ===== src/Bootstrap/Verified.antt =====
-- What a result of 0 of `bootstrap_write_and_verify` of src/bootstrap.c means.
use mathlib.Core.List.{flatten}
use repair_box_psx_hdd_setup.Base.{
  ℕ, zero, suc, ◌+◌, ◌*◌, ◌≤◌, ◌<◌, ℤ, pos, negsuc, is_negative, ◌==ℤ◌, ◌==◌, ==_iff, eio, ◌≡◌,
  refl, sym, ap, ◌∙◌, Bool, true, false, not, ◌&&◌, ◌⊎◌, List, [], length, ◌∷◌, foldl, take, ltb,
  if◌then◌else◌, if_intro, not-false, not-ltb-true, not-ltb-false, if_both, and_elim, arith,
  eq_bytes→eq, Bool-cases, inl, inr,
}
use repair_box_psx_hdd_setup.FileXio.{FileXio, ReadResult, read_error, read_bytes, amount}
use repair_box_psx_hdd_setup.Drive.{Drive}
use repair_box_psx_hdd_setup.Hash.Padding.{reference}
use repair_box_psx_hdd_setup.Hash.Sha256.{
  Context, sha256_init, sha256_update, sha256_final, digest_of, transform, initial_state,
}
use repair_box_psx_hdd_setup.Hash.Sha256.Final.{sha256_streaming}
use repair_box_psx_hdd_setup.Bootstrap.Validate.{
  bootstrap_sector_count, BootstrapResult, BootstrapPaths,
}
use repair_box_psx_hdd_setup.Bootstrap.Write.{
  bytes_of, samples, keep_samples, round_sectors, samples_match, short_code, Written, write_pass,
  read_pass, judge_readback, verify_prefix, close_prefix, write_prefix, bootstrap_write_and_verify,
}

failed : {X : Type 0} (code : ℤ) → is_negative code ≡ true → is_negative code ≡ false → X
failed code h k = cc

short_code-negative : (result : ReadResult) → is_negative (short_code result) ≡ true
unfolding short_code
short_code-negative (read_error n) = refl
short_code-negative (read_bytes bytes) = refl

zero_code : (code : ℤ) → (code ==ℤ pos 0) ≡ true → code ≡ pos 0
zero_code (pos n) h = ground arith
zero_code (negsuc n) h = cc

judged : (b : Bool) → (if b then pos 0 else eio) ≡ pos 0 → b ≡ true
judged true h = refl
judged false h = cc

-- The loops' count of sectors: `lba` of them are done.
abbrev IsAt : ℕ → ℕ → Type 0
IsAt count lba = (count ≡ lba) × (lba ≤ bootstrap_sector_count)

-- A read whose amount is the one asked for.
full_read :
    (result : ReadResult) (n : ℕ)
    → not (amount result ==ℤ pos n) ≡ false
    → (result ≡ read_bytes (bytes_of result)) × (length (bytes_of result) ≡ n)
full_read (read_error k) n h = cc
full_read (read_bytes bytes) n h =
    (refl, (==_iff (length bytes) n).0 (not-false (length bytes == n) h))

module _ (io : FileXio) (drive : Drive io) (paths : BootstrapPaths) (stack : List ℕ) where
  -- The bytes that the second pass reads from `lba` on, round by round.
  unfoldable pub delivered : ℕ → ℕ → List ℕ → io.World → List (List ℕ)
  delivered zero lba buffer w = []
  delivered (suc fuel) lba buffer w =
      let got = drive.read_sectors lba (round_sectors lba) buffer w in
      let rest = delivered fuel (lba + round_sectors lba) got.0.1 got.1 in
      if not (ltb lba bootstrap_sector_count)
      then []
      else take (round_sectors lba * 512) got.0.1 ∷ rest

  -- From sector `lba` on, the prefix was read to the end, so many sectors at a time, and each chunk was
  -- written to its place without an error before the next was read.
  pub data PrefixWritten (fd : ℤ) : ℕ → io.World → io.World → List (List ℕ) → Type 0 where
    all_written :
        (lba : ℕ) (w : io.World) → bootstrap_sector_count ≤ lba → PrefixWritten fd lba w w []
    chunk_written :
        (lba : ℕ) (w w' : io.World) (bytes : List ℕ) (rest : List (List ℕ))
        → lba < bootstrap_sector_count
        → (io.read fd (round_sectors lba * 512) w).0 ≡ read_bytes bytes
        → length bytes ≡ round_sectors lba * 512
        → is_negative (drive.write_sectors lba bytes (io.read fd (round_sectors lba * 512) w).1).0
          ≡ false
        → PrefixWritten fd
            (lba + round_sectors lba)
            (drive.write_sectors lba bytes (io.read fd (round_sectors lba * 512) w).1).1
            w'
            rest
        → PrefixWritten fd lba w w' (bytes ∷ rest)

  -- A pass that went through has written all sectors, and keeps what the validation found.
  abbrev WroteAll : ℤ → ℕ → io.World → BootstrapResult → Written × io.World → Type 0
  WroteAll fd lba w r out =
      is_negative out.0.0.0 ≡ false
      → (out.0.1.written_sectors ≡ bootstrap_sector_count)
        × (out.0.1.expected_sha256 ≡ r.expected_sha256)
        × (out.0.1.readback_sectors ≡ r.readback_sectors)
        × ((chunks : List (List ℕ)) × PrefixWritten fd lba w out.1 chunks)

  write_pass-WroteAll :
      (fuel : ℕ) (fd : ℤ) (lba : ℕ) (sources : List (List ℕ)) (r : BootstrapResult) (w : io.World)
      → bootstrap_sector_count ≤ fuel + lba
      → IsAt r.written_sectors lba
      → WroteAll fd lba w r (write_pass io drive paths stack fuel fd lba sources r w)
  unfolding write_pass
  write_pass-WroteAll zero fd lba sources r w f i =
      λ _. (omega (arith, i.0, i.1), refl, refl, ([], all_written lba w (omega (arith, f))))
  write_pass-WroteAll (suc fuel) fd lba sources r w f i =
      let P : Written × io.World → Type 0 = λ out. WroteAll fd lba w r out in
      let sectors = round_sectors lba in
      let got = io.read fd (sectors * 512) w in
      let short = short_code got.0 in
      let wrote = drive.write_sectors lba (bytes_of got.0) got.1 in
      if_intro P (not (ltb lba bootstrap_sector_count)) _ _
        (λ e _.
          let done = not-ltb-true lba bootstrap_sector_count e in
          (omega (arith, done, i.0, i.1), refl, refl, ([], all_written lba w done)))
        λ more.
          let below = not-ltb-false lba bootstrap_sector_count more in
          if_intro P (not (amount got.0 ==ℤ pos (sectors * 512))) _ _
            (λ _. failed short (short_code-negative got.0))
            λ full.
              if_intro P (is_negative wrote.0) _ _ (λ e. failed wrote.0 e)
                λ fine ok.
                  let whole = full_read got.0 (sectors * 512) full in
                  let next =
                    write_pass-WroteAll fuel fd (lba + sectors)
                      (keep_samples samples sources lba sectors (bytes_of got.0))
                      (record r { written_sectors = lba + sectors }) wrote.1 (omega arith)
                      (refl, omega arith) ok in
                  (
                    next.0,
                    next.1,
                    next.2,
                    (
                      bytes_of got.0 ∷ next.3.0,
                      chunk_written lba w _ (bytes_of got.0) next.3.0 below whole.0 whole.1 fine
                          next.3.1,
                    ),
                  )

  -- A pass that went through has read all sectors, and its hash is that of the bytes.
  abbrev ReadAll :
      ℕ
      → ℕ
      → Context
      → List ℕ
      → BootstrapResult
      → io.World
      → (ℤ × Context) × BootstrapResult
      → Type 0
  ReadAll fuel lba hash buffer r w out =
      is_negative out.0.0 ≡ false
      → (out.1.readback_sectors ≡ bootstrap_sector_count)
        × (out.1.expected_sha256 ≡ r.expected_sha256)
        × (out.1.written_sectors ≡ r.written_sectors)
        × (out.0.1 ≡ foldl sha256_update hash (delivered fuel lba buffer w))

  read_pass-ReadAll :
      (fuel lba : ℕ) (sources : List (List ℕ)) (hash : Context) (buffer : List ℕ)
      (r : BootstrapResult) (w : io.World)
      → bootstrap_sector_count ≤ fuel + lba
      → IsAt r.readback_sectors lba
      → ReadAll fuel lba hash buffer r w
          (read_pass io drive paths stack fuel lba sources hash buffer r w).0
  unfolding read_pass delivered
  read_pass-ReadAll zero lba sources hash buffer r w f i =
      λ _. (omega (arith, i.0, i.1), refl, refl, refl)
  read_pass-ReadAll (suc fuel) lba sources hash buffer r w f i =
      let sectors = round_sectors lba in
      let got = drive.read_sectors lba sectors buffer w in
      let bytes = take (sectors * 512) got.0.1 in
      let kept = samples_match samples sources lba sectors bytes in
      let next = record r {
        sample_sectors_valid = r.sample_sectors_valid && kept;
        readback_sectors = lba + sectors;
      } in
      let P : ((ℤ × Context) × BootstrapResult) × io.World → List (List ℕ) → Type 0 = λ out chunks.
        is_negative out.0.0.0 ≡ false
        → (out.0.1.readback_sectors ≡ bootstrap_sector_count)
          × (out.0.1.expected_sha256 ≡ r.expected_sha256)
          × (out.0.1.written_sectors ≡ r.written_sectors)
          × (out.0.0.1 ≡ foldl sha256_update hash chunks) in
      let chunks = bytes ∷ delivered fuel (lba + sectors) got.0.1 got.1 in
      if_both P (not (ltb lba bootstrap_sector_count)) _ _ [] chunks
        (λ e _.
          (omega (arith, not-ltb-true lba bootstrap_sector_count e, i.0, i.1), refl, refl, refl))
        λ more.
          let below = not-ltb-false lba bootstrap_sector_count more in
          let Q : ((ℤ × Context) × BootstrapResult) × io.World → Type 0 = λ out. P out chunks in
          if_intro Q (is_negative got.0.0) _ _ (λ e. failed got.0.0 e)
            λ _.
              read_pass-ReadAll fuel (lba + sectors) sources (sha256_update hash bytes) got.0.1 next
                got.1 (omega arith) (refl, omega arith)

  -- The answer 0 comes with a result that is verified against these chunks.
  abbrev IsVerified : BootstrapResult → BootstrapResult → List (List ℕ) → Type 0
  IsVerified r out chunks =
      (out.written_sectors ≡ bootstrap_sector_count)
      × (out.readback_sectors ≡ bootstrap_sector_count)
      × (out.bootstrap_valid ≡ true)
      × (sha256_final (foldl sha256_update (sha256_init stack) chunks) ≡ r.expected_sha256)

  verify_prefix-IsVerified :
      (sources : List (List ℕ)) (buffer : List ℕ) (r : BootstrapResult) (w : io.World)
      → r.written_sectors ≡ bootstrap_sector_count
      → r.readback_sectors ≡ 0
      → let out = (verify_prefix io drive paths stack sources buffer r w).0 in
        out.0 ≡ pos 0 → IsVerified r out.1 (delivered bootstrap_sector_count 0 buffer w)
  unfolding verify_prefix judge_readback
  verify_prefix-IsVerified sources buffer r w n k =
      let start = record r { sample_sectors_valid = true } in
      let out =
        read_pass io drive paths stack bootstrap_sector_count 0 sources (sha256_init stack) buffer
          start w in
      let chunks = delivered bootstrap_sector_count 0 buffer w in
      let all =
        read_pass-ReadAll bootstrap_sector_count 0 sources (sha256_init stack) buffer start w
          (omega arith) (k, omega arith) in
      let P : (ℤ × BootstrapResult) × io.World → Type 0 =
        λ out. out.0.0 ≡ pos 0 → IsVerified r out.0.1 chunks in
      if_intro P (is_negative out.0.0.0) _ _ (λ e z. failed out.0.0.0 e (ap is_negative z))
        λ e z.
          let a = all e in
          let valid = judged _ z in
          let v = and_elim _ _ valid in
          (a.2 ∙ n, a.0, valid, ap sha256_final (sym a.3) ∙ (eq_bytes→eq _ _ v.0 ∙ a.1))

  close_prefix-IsVerified :
      (fd : ℤ) (sources : List (List ℕ)) (buffer : List ℕ) (r : BootstrapResult) (w : io.World)
      → r.written_sectors ≡ bootstrap_sector_count
      → r.readback_sectors ≡ 0
      → let out = (close_prefix io drive paths stack fd sources buffer r w).0 in
        out.0 ≡ pos 0
        → IsVerified r out.1 (delivered bootstrap_sector_count 0 buffer (io.close fd w).1)
  unfolding close_prefix
  close_prefix-IsVerified fd sources buffer r w n k =
      let closed = io.close fd w in
      let P : (ℤ × BootstrapResult) × io.World → Type 0 = λ out.
        out.0.0 ≡ pos 0
        → IsVerified r out.0.1 (delivered bootstrap_sector_count 0 buffer (io.close fd w).1) in
      let written = record r { write_return = closed.0 } in
      if_intro P (is_negative closed.0) _ _ (λ e z. failed closed.0 e (ap is_negative z))
        (λ _ z. verify_prefix-IsVerified sources buffer written closed.1 n k z)

  -- The prefix was opened and written to the drive, and behind that the drive delivered these chunks.
  abbrev pub IsOnDrive : List ℕ → io.World → (List (List ℕ) → Type 0) → Type 0
  IsOnDrive buffer w Holds =
      let fd = io.open_read paths.bin_path w in
      (chunks : List (List ℕ)) × (u : io.World) × PrefixWritten fd.0 0 fd.1 u chunks
      × Holds (delivered bootstrap_sector_count 0 buffer (io.close fd.0 u).1)

  write_prefix-IsVerified :
      (sources : List (List ℕ)) (buffer : List ℕ) (r : BootstrapResult) (w : io.World)
      → r.written_sectors ≡ 0
      → r.readback_sectors ≡ 0
      → let out = (write_prefix io drive paths stack sources buffer r w).0 in
        out.0 ≡ pos 0 → IsOnDrive buffer w (IsVerified r out.1)
  unfolding write_prefix
  write_prefix-IsVerified sources buffer r w n k =
      let opened = io.open_read paths.bin_path w in
      let attempted = record r { write_attempted = true } in
      let pass =
        write_pass io drive paths stack bootstrap_sector_count opened.0 0 sources attempted
          opened.1 in
      let P : (ℤ × BootstrapResult) × io.World → Type 0 =
        λ out. out.0.0 ≡ pos 0 → IsOnDrive buffer w (IsVerified r out.0.1) in
      let all =
        write_pass-WroteAll bootstrap_sector_count opened.0 0 sources attempted opened.1
          (omega arith) (n, omega arith) in
      if_intro P (is_negative opened.0) _ _ (λ e z. failed opened.0 e (ap is_negative z))
        λ _.
          if_intro P (is_negative pass.0.0.0) _ _ (λ e z. failed pass.0.0.0 e (ap is_negative z))
            λ e z.
              let a = all e in
              let d =
                close_prefix-IsVerified opened.0 pass.0.0.1 buffer pass.0.1 pass.1 a.0 (a.2 ∙ k)
                  z in
              (a.3.0, pass.1, a.3.1, (d.0, d.1, d.2, d.3 ∙ a.1))

  -- The drive delivers chunks of which the padded block fold is the digest that was expected.
  abbrev pub HasDigest : List ℕ → List (List ℕ) → Type 0
  HasDigest expected chunks =
      digest_of (reference transform initial_state (flatten chunks)) ≡ expected

  zero_verified :
      (sources : List (List ℕ)) (buffer : List ℕ) (r : BootstrapResult) (w : io.World)
      → length stack ≡ 64
      → r.written_sectors ≡ 0
      → r.readback_sectors ≡ 0
      → let out = (bootstrap_write_and_verify io drive paths stack sources buffer r w).0 in
        out.0 ≡ pos 0
        → (r.validation_valid ≡ true)
          × (out.1.written_sectors ≡ bootstrap_sector_count)
          × (out.1.readback_sectors ≡ bootstrap_sector_count)
          × (out.1.bootstrap_valid ≡ true)
          × IsOnDrive buffer w (HasDigest r.expected_sha256)
  unfolding bootstrap_write_and_verify
  zero_verified sources buffer r w s n k =
      let P : (ℤ × BootstrapResult) × io.World → Type 0 = λ out.
        out.0.0 ≡ pos 0
        → (r.validation_valid ≡ true)
          × (out.0.1.written_sectors ≡ bootstrap_sector_count)
          × (out.0.1.readback_sectors ≡ bootstrap_sector_count)
          × (out.0.1.bootstrap_valid ≡ true)
          × IsOnDrive buffer w (HasDigest r.expected_sha256) in
      if_intro P (not r.validation_valid) _ _ (λ e z. cc)
        λ e z.
          let v = write_prefix-IsVerified sources buffer r w n k z in
          let d = v.3 in
          let fd = io.open_read paths.bin_path w in
          let chunks = delivered bootstrap_sector_count 0 buffer (io.close fd.0 v.1).1 in
          (
            not-false r.validation_valid e,
            d.0,
            d.1,
            d.2,
            (v.0, v.1, v.2, sym (sha256_streaming stack chunks s) ∙ d.3),
          )

  -- The answer is not 0, or the validation had accepted the prefix, the file of the prefix was opened
  -- and its 0x27E7 sectors were read in chunks of three sectors, each of which was written to its place
  -- without an error before the next was read; and in the state that this leaves, with the file closed,
  -- the chunks that the drive delivered from sector 0 on have a padded block fold that is the SHA-256
  -- digest which the validation expected. The counters of written and read sectors are 0x27E7.
  pub write_and_verify_verified :
      (sources : List (List ℕ)) (buffer : List ℕ) (r : BootstrapResult) (w : io.World)
      → length stack ≡ 64
      → r.written_sectors ≡ 0
      → r.readback_sectors ≡ 0
      → let out = (bootstrap_write_and_verify io drive paths stack sources buffer r w).0 in
        ((out.0 ==ℤ pos 0) ≡ false)
        ⊎ ((r.validation_valid ≡ true)
            × (out.1.written_sectors ≡ bootstrap_sector_count)
            × (out.1.readback_sectors ≡ bootstrap_sector_count)
            × (out.1.bootstrap_valid ≡ true)
            × IsOnDrive buffer w (HasDigest r.expected_sha256))
  write_and_verify_verified sources buffer r w s n k =
      let out = (bootstrap_write_and_verify io drive paths stack sources buffer r w).0 in
      elim (Bool-cases (out.0 ==ℤ pos 0)) [
        | inl e ↦ inr (zero_verified sources buffer r w s n k (zero_code out.0 e))
        | inr f ↦ inl f
      ]
