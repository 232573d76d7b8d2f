-- ===== src/FileXio/LawfulFile.antt =====
-- What a file system without faults promises of one file. Reads and writes may be short, but they
-- move at least one byte while there is one to move.
use repair_box_psx_hdd_setup.Base.{
  ℕ, ◌+◌, ◌-◌, ◌≤◌, ◌<◌, ℤ, pos, ◌≡◌, List, [], ◌++◌, length, take, drop, min,
}
use repair_box_psx_hdd_setup.FileXio.{FileXio, read_bytes}

module _ (io : FileXio) where
  -- `f w` answers with a number that is not negative, and a property of it holds of the state after.
  abbrev pub Answers : ℤ × io.World → (ℕ → io.World → Type 0) → Type 0
  Answers r P = (n : ℕ) × (r.0 ≡ pos n) × P n r.1

  pub record LawfulFile (path : List ℕ) : Type 1 where
    -- The file has this content and is closed.
    pub Holds : List ℕ → io.World → Type 0
    -- A descriptor reads the file, which has this content, at this position.
    pub Reading : ℤ → List ℕ → ℕ → io.World → Type 0
    -- A descriptor writes the file, which has this content so far.
    pub Writing : ℤ → List ℕ → io.World → Type 0
    pub opens_read :
        (content : List ℕ) (w : io.World)
        → Holds content w
        → Answers (io.open_read path w) (λ fd w'. Reading (pos fd) content 0 w')
    pub reads :
        (fd : ℤ) (content : List ℕ) (at size : ℕ) (w : io.World)
        → Reading fd content at w
        → (n : ℕ) × ((io.read fd size w).0 ≡ read_bytes (take n (drop at content)))
          × (n ≤ min size (length content - at))
          × (0 < min size (length content - at) → 0 < n)
          × Reading fd content (at + n) (io.read fd size w).1
    pub closes_read :
        (fd : ℤ) (content : List ℕ) (at : ℕ) (w : io.World)
        → Reading fd content at w
        → Answers (io.close fd w) (λ n w'. Holds content w')
    pub opens_write :
        (w : io.World) → Answers (io.open_write path w) (λ fd w'. Writing (pos fd) [] w')
    pub writes :
        (fd : ℤ) (content bytes : List ℕ) (w : io.World)
        → Writing fd content w
        → 0 < length bytes
        → (n : ℕ) × ((io.write fd bytes w).0 ≡ pos n)
          × (0 < n)
          × (n ≤ length bytes)
          × Writing fd (content ++ take n bytes) (io.write fd bytes w).1
    pub closes_write :
        (fd : ℤ) (content : List ℕ) (w : io.World)
        → Writing fd content w
        → Answers (io.close fd w) (λ n w'. Holds content w')
