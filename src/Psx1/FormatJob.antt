-- ===== src/Psx1/FormatJob.antt =====
-- `run_format_job` of src/psx1_pipeline.c: the formatter runs in a thread of its own, which the
-- caller waits for and deletes.
use repair_box_psx_hdd_setup.Base.{ℕ, zero, suc, ℤ, is_negative, Bool, List, if◌then◌else◌, eio}
use repair_box_psx_hdd_setup.Base.Io.{Io}
use repair_box_psx_hdd_setup.FileXio.{FileXio}

pub data FormatJobKind : Type 0 where
  format_job_apa format_job_pfs : FormatJobKind

-- The formatter and the kernel's threads, which are no part of the repository.
pub record Formatter (io : FileXio) : Type 0 where
  -- `fileXioFormat("hdd0:", NULL, NULL, 0)`
  pub format_apa : Io io.World ℤ
  -- `fileXioFormat("pfs:", blockdev, args, 4)` with the zone size 8192
  pub format_pfs : List ℕ → Io io.World ℤ
  pub create_thread : Io io.World ℤ
  pub start_thread : ℤ → Io io.World ℤ
  pub delete_thread : ℤ → Io io.World ℤ
  -- The result of `ReferThreadStatus`, and whether the status is THS_DORMANT.
  pub refer_thread_status : ℤ → Io io.World (ℤ × Bool)

module _ (io : FileXio) (formatter : Formatter io) where
  unfoldable pub format_worker : FormatJobKind → List ℕ → Io io.World ℤ
  format_worker format_job_apa blockdev w = formatter.format_apa w
  format_worker format_job_pfs blockdev w = formatter.format_pfs blockdev w

  -- The loop that waits for the thread to be dormant, which has no bound in the code: the last result
  -- of the status call. Where the fuel is used up the answer is -EIO, which the code does not give.
  unfoldable pub wait_dormant : ℕ → ℤ → Io io.World ℤ
  wait_dormant zero thread w = (eio, w)
  wait_dormant (suc fuel) thread w =
      let ((code, dormant), w') = formatter.refer_thread_status thread w in
      let rest = wait_dormant fuel thread w' in
      if is_negative code then (code, w') else if dormant then (code, w') else rest

  -- Behind the job's end.
  unfoldable pub end_thread : ℕ → ℤ → ℤ → Io io.World ℤ
  end_thread fuel thread result w =
      let (waited, w1) = wait_dormant fuel thread w in
      let (deleted, w2) = formatter.delete_thread thread w1 in
      if is_negative waited
      then (waited, w1)
      else if is_negative deleted
      then (deleted, w2)
      else (result, w2)

  -- The caller draws the screen until the worker is done, so that the worker's call is the only one
  -- in between.
  unfoldable pub run_format_job : ℕ → FormatJobKind → List ℕ → Io io.World ℤ
  run_format_job fuel kind blockdev w =
      let (thread, w1) = formatter.create_thread w in
      let (started, w2) = formatter.start_thread thread w1 in
      let (result, w3) = format_worker kind blockdev w2 in
      if is_negative thread
      then (thread, w1)
      else if is_negative started
      then (let (deleted, w4) = formatter.delete_thread thread w2 in (started, w4))
      else end_thread fuel thread result w3
