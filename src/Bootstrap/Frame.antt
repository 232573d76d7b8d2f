-- ===== src/Bootstrap/Frame.antt =====
-- What `bootstrap_write_and_verify` of src/bootstrap.c can do to the drive.
use repair_box_psx_hdd_setup.Base.{
  ℕ, zero, suc, ◌+◌, ◌*◌, ◌≤◌, ℤ, pos, is_negative, ◌==ℤ◌, eperm, ◌≡◌, refl, Bool, true, false, not,
  List, length, ltb, if_intro, not-ltb-false, arith,
}
use repair_box_psx_hdd_setup.FileXio.{FileXio, ReadResult, read_error, read_bytes, amount}
use repair_box_psx_hdd_setup.Drive.{Drive}
use repair_box_psx_hdd_setup.Hash.Sha256.{Context, sha256_init}
use repair_box_psx_hdd_setup.Bootstrap.Validate.{
  bootstrap_sector_count, BootstrapResult, BootstrapPaths,
}
use repair_box_psx_hdd_setup.Bootstrap.Write.{
  bytes_of, samples, round_sectors, keep_samples, Written, write_pass, read_pass, verify_prefix,
  close_prefix, write_prefix, bootstrap_write_and_verify,
}

clash : {X : Type 0} (b : Bool) → not b ≡ false → b ≡ false → X
clash true h k = cc
clash false h k = cc

length-bytes_of :
    (result : ReadResult) (n : ℕ)
    → not (amount result ==ℤ pos n) ≡ false
    → length (bytes_of result) ≡ n
length-bytes_of (read_error k) n h = cc
length-bytes_of (read_bytes bytes) n h = ground arith

module _ (io : FileXio) (drive : Drive io) (paths : BootstrapPaths) (stack : List ℕ) where
  -- A property of the devices that reading files and sectors keep, and writing whole sectors below the
  -- end of the prefix.
  pub record KeptByPrefix (Inv : io.World → Type 0) : Type 0 where
    pub opens : (w : io.World) → Inv w → Inv (io.open_read paths.bin_path w).1
    pub reads : (fd : ℤ) (size : ℕ) (w : io.World) → Inv w → Inv (io.read fd size w).1
    pub closes : (fd : ℤ) (w : io.World) → Inv w → Inv (io.close fd w).1
    pub reads_sectors :
        (lba count : ℕ) (buffer : List ℕ) (w : io.World)
        → Inv w
        → Inv (drive.read_sectors lba count buffer w).1
    pub writes_sectors :
        (lba count : ℕ) (bytes : List ℕ) (w : io.World)
        → lba + count ≤ bootstrap_sector_count
        → length bytes ≡ count * 512
        → Inv w
        → Inv (drive.write_sectors lba bytes w).1

  module _ (Inv : io.World → Type 0) (kept : KeptByPrefix Inv) where
    write_pass-KeptByPrefix :
        (fuel : ℕ) (fd : ℤ) (lba : ℕ) (sources : List (List ℕ)) (r : BootstrapResult) (w : io.World)
        → Inv w
        → Inv (write_pass io drive paths stack fuel fd lba sources r w).1
    unfolding write_pass
    write_pass-KeptByPrefix zero fd lba sources r w h = h
    write_pass-KeptByPrefix (suc fuel) fd lba sources r w h =
        let P : Written × io.World → Type 0 = λ out. Inv out.1 in
        let sectors = round_sectors lba in
        let got = io.read fd (sectors * 512) w in
        let read = kept.reads fd (sectors * 512) w h in
        let wrote = drive.write_sectors lba (bytes_of got.0) got.1 in
        if_intro P (not (ltb lba bootstrap_sector_count)) _ _ (λ _. h)
          λ more.
            let below = not-ltb-false lba bootstrap_sector_count more in
            if_intro P (not (amount got.0 ==ℤ pos (sectors * 512))) _ _
              (λ _. kept.closes fd got.1 read)
              λ whole.
                let after =
                  kept.writes_sectors lba sectors (bytes_of got.0) got.1 (omega arith)
                    (length-bytes_of got.0 (sectors * 512) whole) read in
                if_intro P (is_negative wrote.0) _ _ (λ _. kept.closes fd wrote.1 after)
                  λ _.
                    write_pass-KeptByPrefix fuel fd (lba + sectors)
                      (keep_samples samples sources lba sectors (bytes_of got.0))
                      (record r { written_sectors = lba + sectors }) wrote.1 after

    read_pass-KeptByPrefix :
        (fuel lba : ℕ) (sources : List (List ℕ)) (hash : Context) (buffer : List ℕ)
        (r : BootstrapResult) (w : io.World)
        → Inv w
        → Inv (read_pass io drive paths stack fuel lba sources hash buffer r w).1
    unfolding read_pass
    read_pass-KeptByPrefix zero lba sources hash buffer r w h = h
    read_pass-KeptByPrefix (suc fuel) lba sources hash buffer r w h =
        let P : ((ℤ × Context) × BootstrapResult) × io.World → Type 0 = λ out. Inv out.1 in
        let got = drive.read_sectors lba (round_sectors lba) buffer w in
        let read = kept.reads_sectors lba (round_sectors lba) buffer w h in
        if_intro P (not (ltb lba bootstrap_sector_count)) _ _ (λ _. h)
          λ _.
            if_intro P (is_negative got.0.0) _ _ (λ _. read)
              λ _. read_pass-KeptByPrefix fuel _ sources _ got.0.1 _ got.1 read

    close_prefix-KeptByPrefix :
        (fd : ℤ) (sources : List (List ℕ)) (buffer : List ℕ) (r : BootstrapResult) (w : io.World)
        → Inv w
        → Inv (close_prefix io drive paths stack fd sources buffer r w).1
    unfolding close_prefix verify_prefix
    close_prefix-KeptByPrefix fd sources buffer r w h =
        let P : (ℤ × BootstrapResult) × io.World → Type 0 = λ out. Inv out.1 in
        let closed = io.close fd w in
        let after = kept.closes fd w h in
        let start = record r { write_return = closed.0; sample_sectors_valid = true } in
        let pass =
          read_pass io drive paths stack bootstrap_sector_count 0 sources (sha256_init stack) buffer
            start closed.1 in
        let read =
          read_pass-KeptByPrefix bootstrap_sector_count 0 sources (sha256_init stack) buffer start
            closed.1 after in
        if_intro P (is_negative closed.0) _ _ (λ _. after)
          λ _. if_intro P (is_negative pass.0.0.0) _ _ (λ _. read) (λ _. read)

  -- Nothing of the devices is changed but the first 0x27E7 sectors of the drive, which are written in
  -- whole sectors, and nothing at all without a valid prefix: a property that reading files and sectors
  -- and writing whole sectors below 0x27E7 keep holds after the call where it held before, and a
  -- result whose validation failed is returned with -EPERM and the devices as they are.
  pub write_and_verify-KeptByPrefix :
      (Inv : io.World → Type 0) (sources : List (List ℕ)) (buffer : List ℕ) (r : BootstrapResult)
      (w : io.World)
      → KeptByPrefix Inv
      → Inv w
      → let out = bootstrap_write_and_verify io drive paths stack sources buffer r w in
        Inv out.1 × (r.validation_valid ≡ false → out ≡ ((eperm, r), w))
  unfolding bootstrap_write_and_verify write_prefix
  write_and_verify-KeptByPrefix Inv sources buffer r w kept h =
      let P : (ℤ × BootstrapResult) × io.World → Type 0 =
        λ out. Inv out.1 × (r.validation_valid ≡ false → out ≡ ((eperm, r), w)) in
      let Q : (ℤ × BootstrapResult) × io.World → Type 0 = λ out. Inv out.1 in
      let opened = io.open_read paths.bin_path w in
      let open_kept = kept.opens w h in
      let attempted = record r { write_attempted = true } in
      let pass =
        write_pass io drive paths stack bootstrap_sector_count opened.0 0 sources attempted
          opened.1 in
      let wrote =
        write_pass-KeptByPrefix Inv kept bootstrap_sector_count opened.0 0 sources attempted
          opened.1 open_kept in
      if_intro P (not r.validation_valid) _ _ (λ _. (h, λ _. refl))
        λ e. (
          if_intro Q (is_negative opened.0) _ _ (λ _. open_kept)
              λ _.
                if_intro Q (is_negative pass.0.0.0) _ _ (λ _. wrote)
                  λ _.
                    close_prefix-KeptByPrefix Inv kept opened.0 pass.0.0.1 buffer pass.0.1 pass.1
                      wrote,
          λ f. clash r.validation_valid e f,
        )
