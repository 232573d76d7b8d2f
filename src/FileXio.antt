-- ===== src/FileXio.antt =====
-- The file and device calls of PS2SDK's fileXio library, which is not part of the repository: a
-- parameter of the modules that call it. `World` is the state of the console's devices, and each
-- call takes it to the next. Clock and delay calls (`GetTimerSystemTime`, `DelayThread`) and the
-- screen are left out, and so are the duration fields of the program's results.
pub mod LawfulFile
use repair_box_psx_hdd_setup.Base.{ℕ, ℤ, pos, negsuc, List, length, Bool, ◌≡◌, refl}
use repair_box_psx_hdd_setup.Base.Io.{Io}

-- `fileXioRead` gives a negative error number, or the bytes that it put into the buffer, whose
-- number is its result.
pub data ReadResult : Type 0 where
  read_error : ℕ → ReadResult
  read_bytes : List ℕ → ReadResult

-- The `int` that the call returns; `read_error n` is -(n + 1).
abbrev pub amount : ReadResult → ℤ
amount (read_error n) = negsuc n
amount (read_bytes bytes) = pos (length bytes)

-- What `fileXioDread` writes to an `iox_dirent_t`: the buffer of the name, 256 bytes, whether
-- `FIO_S_ISDIR` holds of the mode, and the size.
pub record Dirent : Type 0 where
  pub name : List ℕ
  pub is_directory : Bool
  -- `hisize` and `size` as one number
  pub size : ℕ

-- The three kinds of result of `fileXioDread`: negative, zero and positive.
pub data DreadResult : Type 0 where
  dread_error : ℕ → DreadResult
  dread_end : DreadResult
  dread_entry : Dirent → DreadResult

-- The cases of a result, with an equation.
pub data DreadCases (r : DreadResult) : Type 0 where
  is_error : (n : ℕ) → r ≡ dread_error n → DreadCases r
  is_end : r ≡ dread_end → DreadCases r
  is_entry : (entry : Dirent) → r ≡ dread_entry entry → DreadCases r

pub read_cases : (r : DreadResult) → DreadCases r
read_cases (dread_error n) = is_error n refl
read_cases dread_end = is_end refl
read_cases (dread_entry entry) = is_entry entry refl

pub record FileXio : Type 1 where
  pub World : Type 0
  -- `fileXioOpen(path, FIO_O_RDONLY, 0)`
  pub open_read : List ℕ → Io World ℤ
  -- `fileXioOpen(path, FIO_O_WRONLY | FIO_O_CREAT | FIO_O_TRUNC, 0666)`
  pub open_write : List ℕ → Io World ℤ
  -- `fileXioRead(fd, buffer, size)`
  pub read : ℤ → ℕ → Io World ReadResult
  -- `fileXioWrite(fd, bytes, length)`
  pub write : ℤ → List ℕ → Io World ℤ
  pub close : ℤ → Io World ℤ
  pub dopen : List ℕ → Io World ℤ
  pub dread : ℤ → Io World DreadResult
  pub dclose : ℤ → Io World ℤ
  -- `fileXioMkdir(path, 0777)`
  pub mkdir : List ℕ → Io World ℤ
  pub remove : List ℕ → Io World ℤ
