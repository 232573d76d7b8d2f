-- ===== src/Installer/Scan.antt =====
-- `scan_directory` of src/installer.c: the files and folders of the source medium are listed.
-- Installer/Scan/Source has the scan of the root.
pub mod Source
pub mod Safe
pub mod Listing
pub mod Folders
pub mod Root
pub mod Depth
use repair_box_psx_hdd_setup.Base.{
  ℕ, zero, suc, ◌+◌, ◌*◌, ℤ, pos, negsuc, is_negative, ◌==ℤ◌, enoent, einval, enametoolong, Bool,
  true, false, not, ◌&&◌, ◌||◌, Option, none, some, List, [], ◌∷◌, ◌++◌, codes, c_string, length,
  get_or, take, ltb, leb, ◌==◌, eq_bytes, u32, u64, if◌then◌else◌,
}
use repair_box_psx_hdd_setup.Base.Io.{Io}
use repair_box_psx_hdd_setup.FileXio.{
  FileXio, Dirent, DreadResult, dread_error, dread_end, dread_entry,
}
use repair_box_psx_hdd_setup.Xfrom.Copy.{SourceMedia}
use repair_box_psx_hdd_setup.Installer.{
  config, ItemType, item_directory, item_file, SourceItem, PartitionResult, InstallerResult,
  set_failure, no_failure, append_component, make_usb_path, is_dots, safe_component,
}

-- The memory that the scan asks for: whether `realloc` gives room for a number of elements, and
-- `malloc` for a copy of a text.
pub record Memory : Type 0 where
  pub gives_elements : ℕ → Bool
  pub gives_copy : List ℕ → Bool

-- -ENOMEM
abbrev pub enomem : ℤ
enomem = negsuc 11

-- Room for one more: the capacity, doubled where it is used up, or `none` where there is no memory.
unfoldable pub grow : Memory → ℕ → ℕ → ℕ → Option ℕ
grow memory first count capacity =
    let doubled = if capacity == 0 then first else capacity * 2 in
    if count == capacity
    then (if memory.gives_elements doubled then some doubled else none)
    else some capacity

-- The item behind the others, where there is room.
unfoldable pub place_item : Memory → SourceItem → InstallerResult → Option ℕ → ℤ × InstallerResult
place_item memory item r none = (enomem, r)
place_item memory item r (some capacity) =
    let roomy = record r { item_capacity = capacity } in
    if memory.gives_copy item.relative_path
    then (pos 0, record roomy { items = r.items ++ (item ∷ []) })
    else (enomem, roomy)

unfoldable pub append_item : Memory → SourceItem → InstallerResult → ℤ × InstallerResult
append_item memory item r =
    place_item memory item r (grow memory 128 (length r.items) r.item_capacity)

unfoldable pub place_unknown : Memory → List ℕ → InstallerResult → Option ℕ → ℤ × InstallerResult
place_unknown memory name r none = (enomem, r)
place_unknown memory name r (some capacity) =
    let roomy = record r { unknown_top_level_capacity = capacity } in
    if memory.gives_copy name
    then (
      pos 0,
      record roomy { unknown_top_level_names = r.unknown_top_level_names ++ (name ∷ []) },
    )
    else (enomem, roomy)

unfoldable pub append_unknown : Memory → List ℕ → InstallerResult → ℤ × InstallerResult
append_unknown memory name r =
    let count = length r.unknown_top_level_names in
    place_unknown memory name r (grow memory 8 count r.unknown_top_level_capacity)

-- The index of the partition; `none` is -1.
unfoldable pub partition_index_from_name : List PartitionResult → List ℕ → Option ℕ
partition_index_from_name [] name = none
partition_index_from_name (p ∷ ps) name =
    let rest = partition_index_from_name ps name in
    if eq_bytes name p.name
    then some 0
    else elim rest [ none ↦ none | some index ↦ some (suc index) ]

-- `result->partitions[index]` is changed.
unfoldable pub change_at :
    ℕ → (PartitionResult → PartitionResult) → List PartitionResult → List PartitionResult
change_at index f [] = []
change_at zero f (p ∷ ps) = f p ∷ ps
change_at (suc index) f (p ∷ ps) = p ∷ change_at index f ps

abbrev pub change : ℕ → (PartitionResult → PartitionResult) → InstallerResult → InstallerResult
change index f r = record r { partitions = change_at index f r.partitions }

-- `source_media_dread_is_eof`: a memory card in the slot of a console ends a folder with -1.
unfoldable pub source_media_dread_is_eof : SourceMedia → ℤ → Bool
source_media_dread_is_eof media result =
    (result ==ℤ pos 0) || (media.is_mmce && (result ==ℤ negsuc 0))

-- The result behind the loop over a folder.
unfoldable pub last_read : SourceMedia → ℤ → ℤ
last_read media result = if source_media_dread_is_eof media result then pos 0 else result

-- A folder's state: the result and the names of the folders in it, in order.
abbrev pub Listed : Type 0
Listed = InstallerResult × List (List ℕ)

-- One entry of a folder: whether the loop goes on, and the state.
unfoldable pub count_directory : ℕ → InstallerResult → InstallerResult
count_directory index r =
    let counted = record r { source_directory_count = u32 (suc r.source_directory_count) } in
    change index (λ p. record p { source_directories = u32 (suc p.source_directories) }) counted

unfoldable pub count_file : ℕ → ℕ → InstallerResult → InstallerResult
count_file index size r =
    let counted = record r {
      source_file_count = u32 (suc r.source_file_count);
      source_total_bytes = u64 (r.source_total_bytes + size);
    } in
    change index
      (λ p. record p {
        source_files = u32 (suc p.source_files);
        source_bytes = u64 (p.source_bytes + size);
      })
      counted

abbrev pub item : ℕ → ItemType → List ℕ → ℕ → SourceItem
item index type path size = record {
  partition_index = index;
  type = type;
  relative_path = path;
  size = size;
}

unfoldable pub list_directory : Memory → ℕ → List ℕ → List ℕ → List ℕ → Listed → Bool × Listed
list_directory memory index name path child (r, children) =
    let (code, r') = append_item memory (item index item_directory path 0) r in
    let given = memory.gives_elements (suc (length children)) in
    if is_negative code
    then (false, (set_failure r' code name path (codes "allocate_source_directory"), children))
    else if given
    then (true, (count_directory index r', children ++ (child ∷ [])))
    else (false, (set_failure r' enomem name path (codes "allocate_source_directory"), children))

unfoldable pub list_file : Memory → ℕ → List ℕ → List ℕ → ℕ → Listed → Bool × Listed
list_file memory index name path size (r, children) =
    let (code, r') = append_item memory (item index item_file path size) r in
    if is_negative code
    then (false, (set_failure r' code name path (codes "allocate_source_file"), children))
    else (true, (count_file index size r', children))

-- The name of an entry, cut at its 256th byte.
abbrev pub entry_name : Dirent → List ℕ
entry_name entry = c_string (take 255 entry.name)

-- An entry with a safe name, by the path of it.
unfoldable pub list_child :
    Memory → ℕ → List ℕ → List ℕ → Dirent → Listed → Option (List ℕ) → Bool × Listed
list_child memory index name relative_path entry (r, children) none = (
  false,
  (set_failure r enametoolong name relative_path (codes "source_path_too_long"), children),
)
list_child memory index name relative_path entry state (some path) =
    if entry.is_directory
    then list_directory memory index name path (entry_name entry) state
    else list_file memory index name path entry.size state

-- `name` is the partition's, `relative_path` the folder's.
unfoldable pub list_entry : Memory → ℕ → List ℕ → List ℕ → Dirent → Listed → Bool × Listed
list_entry memory index name relative_path entry (r, children) =
    let child = entry_name entry in
    let path = append_component relative_path child in
    if is_dots child
    then (true, (r, children))
    else if not (safe_component child)
    then (
      false,
      (set_failure r einval name relative_path (codes "unsafe_source_component"), children),
    )
    else list_child memory index name relative_path entry (r, children) path

-- `media` is the source medium, `fuel` the bound on the entries of a folder, which the code has not.
module _ (io : FileXio) (media : SourceMedia) (memory : Memory) (fuel : ℕ) where
  -- The loop over a folder: the last result of `fileXioDread`, where 1 stands for a positive one, and the
  -- state. Where the fuel is used up the result is -EIO, which is not the code's.
  unfoldable pub list_loop : ℕ → ℕ → List ℕ → List ℕ → ℤ → Listed → Io io.World (ℤ × Listed)
  list_loop zero index name path fd state w = ((negsuc 4, state), w)
  list_loop (suc left) index name path fd state w =
      let (entry, w') = io.dread fd w in
      elim entry [
        | dread_error n ↦ ((negsuc n, state), w')
        | dread_end ↦ ((pos 0, state), w')
        | dread_entry e ↦
            let (go, state') = list_entry memory index name path e state in
            let rest = list_loop left index name path fd state' w' in
            if go then rest else ((pos 1, state'), w')
      ]

  -- Behind the loop: the folder is closed, and a failed read or close is a failure.
  unfoldable pub close_directory :
      ℕ → List ℕ → List ℕ → Bool → ℤ → ℤ → InstallerResult → Io io.World InstallerResult
  close_directory index name path is_root fd result r w =
      let last = last_read media result in
      let (closed, w') = io.dclose fd w in
      let noted =
        change index
          (λ p. record p { source_final_read_result = last; source_close_result = closed }) r in
      let r1 = if is_root then noted else r in
      let r2 =
        if is_negative last then set_failure r1 last name path (codes "source_dread") else r1 in
      (
        if is_negative closed then set_failure r2 closed name path (codes "source_dclose") else r2,
        w',
      )

  -- A folder in a folder, by its path.
  unfoldable pub scan_child :
      (List ℕ → InstallerResult → Io io.World InstallerResult)
      → List ℕ
      → List ℕ
      → InstallerResult
      → Option (List ℕ)
      → Io io.World InstallerResult
  scan_child scan name path r none w =
      (set_failure r enametoolong name path (codes "source_path_too_long"), w)
  scan_child scan name path r (some child_path) w = scan child_path r w

  -- The folders in a folder, one after the other, while there is no failure.
  unfoldable pub scan_children :
      (List ℕ → InstallerResult → Io io.World InstallerResult)
      → List ℕ
      → List ℕ
      → List (List ℕ)
      → InstallerResult
      → Io io.World InstallerResult
  scan_children scan name path [] r w = (r, w)
  scan_children scan name path (child ∷ children) r w =
      let (r', w') = scan_child scan name path r (append_component path child) w in
      let rest = scan_children scan name path children r' w' in
      if not (no_failure r) then (r, w) else rest

  -- The loop over an open folder, and its end.
  unfoldable pub list_folder : ℕ → List ℕ → Bool → List ℕ → ℤ → InstallerResult → Io io.World Listed
  list_folder index name is_root path fd r w =
      let ((result, (listed, children)), w1) = list_loop fuel index name path fd (r, []) w in
      let (closed, w2) = close_directory index name path is_root fd result listed w1 in
      ((closed, children), w2)

  unfoldable pub open_folder :
      ℕ → List ℕ → Bool → List ℕ → InstallerResult → Option (List ℕ) → Io io.World (Bool × Listed)
  open_folder index name is_root path r none w =
      ((false, (set_failure r enametoolong name path (codes "source_path_too_long"), [])), w)
  open_folder index name is_root path r (some directory) w =
      let (fd, w1) = io.dopen directory w in
      let noted = change index (λ p. record p { source_open_result = fd }) r in
      let opened = if is_root then noted else r in
      let (listed, w2) = list_folder index name is_root path fd opened w1 in
      if is_negative fd
      then ((false, (set_failure opened fd name path (codes "source_dopen"), [])), w1)
      else ((true, listed), w2)

  -- Each level makes the path longer, and a path is shorter than 1024, so that 1024 less its length is
  -- fuel enough for the depth.
  unfoldable pub scan_directory :
      ℕ → ℕ → List ℕ → Bool → List ℕ → InstallerResult → Io io.World InstallerResult
  scan_directory zero index name is_root path r w = (r, w)
  scan_directory (suc depth) index name is_root path r w =
      let ((entered, (listed, children)), w1) =
        open_folder index name is_root path r (make_usb_path r.source_root name path) w in
      let out =
        scan_children (scan_directory depth index name false) name path children listed w1 in
      if entered then out else (listed, w1)
