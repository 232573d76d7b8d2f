-- ===== src/Installer/Scan/Safe.antt =====
-- What `installer_scan_source` of src/installer.c lists: safe paths, within the room for them.
use mathlib.Core.Path.{subst}
use repair_box_psx_hdd_setup.Base.{
  ℕ, zero, suc, ◌*◌, ◌≤◌, ◌<◌, ℤ, ◌≡◌, refl, sym, ap, ◌∙◌, ◌⊎◌, inl, inr, Bool, true, false, Option,
  none, some, List, [], ◌∷◌, ◌++◌, length, length-append, ltb, ltb→lt, ◌==◌, eq_bytes, eq_bytes→eq,
  eq_bytes_refl, if◌then◌else◌, if_intro, Bool-cases, arith,
}
use repair_box_psx_hdd_setup.Installer.{
  SourceItem, PartitionResult, InstallerResult, IsLeft, AreLeft, set_failure, append_component,
  safe_component,
}
use repair_box_psx_hdd_setup.Installer.Scan.{
  Memory, grow, append_item, append_unknown, place_item, place_unknown, change_at, change,
}

-- A path of names that are all safe, each behind a '/'.
pub data IsSafePath : List ℕ → Type 0 where
  at_root : (name : List ℕ) → safe_component name ≡ true → IsSafePath (47 ∷ name)
  below :
      (parent name : List ℕ)
      → IsSafePath parent
      → safe_component name ≡ true
      → IsSafePath (parent ++ (47 ∷ name))

abbrev pub IsFolderPath : List ℕ → Type 0
IsFolderPath path = (path ≡ 47 ∷ []) ⊎ IsSafePath path

-- An item of one of `n` partitions, with a safe path that fits into the buffers.
abbrev pub IsSafeItem : ℕ → SourceItem → Type 0
IsSafeItem n it =
    (it.partition_index < n) × IsSafePath it.relative_path × (length it.relative_path < 1024)

abbrev pub AreSafeItems : ℕ → List SourceItem → Type 0
AreSafeItems n [] = Unit {0}
AreSafeItems n (it ∷ items) = IsSafeItem n it × AreSafeItems n items

-- What the scan keeps of its result: safe items, never more of them than there is room, and partitions
-- that the program has not mounted.
abbrev pub IsListing : ℕ → InstallerResult → Type 0
IsListing n r =
    AreSafeItems n r.items
    × (length r.items ≤ r.item_capacity)
    × (length r.unknown_top_level_names ≤ r.unknown_top_level_capacity)
    × (length r.partitions ≡ n)
    × AreLeft r.partitions
    × (r.system_files_install_valid ≡ false)

AreSafeItems-append :
    (n : ℕ) (xs : List SourceItem) (it : SourceItem)
    → AreSafeItems n xs
    → IsSafeItem n it
    → AreSafeItems n (xs ++ (it ∷ []))
AreSafeItems-append n [] it h k = (k, tt)
AreSafeItems-append n (x ∷ xs) it h k = (h.0, AreSafeItems-append n xs it h.1 k)

fits :
    (q path : List ℕ)
    → (if ltb (length q) 1024 then some q else none) ≡ some path
    → (q ≡ path) × (length path < 1024)
fits q path e = elim (Bool-cases (ltb (length q) 1024)) [
  | inl t ↦
      let same : some q ≡ some path =
        subst (λ (b : Bool). (if b then some q else none) ≡ some path) t e in
      let eq : q ≡ path = cc in
      (eq, omega (arith, ltb→lt (length q) 1024 t, ap (λ xs. length xs) eq))
  | inr u ↦
      let no : none ≡ some path =
        subst (λ (b : Bool). (if b then some q else none) ≡ some path) u e in
      cc
]

safe_nonempty : (name : List ℕ) → safe_component name ≡ true → 0 < length name
unfolding safe_component eq_bytes
safe_nonempty [] h = cc
safe_nonempty (c ∷ name) h = omega arith

inner :
    (parent : List ℕ) → IsFolderPath parent → eq_bytes parent (47 ∷ []) ≡ false → IsSafePath parent
inner parent (inl e) u =
    let b : eq_bytes parent (47 ∷ []) ≡ true =
      subst (λ p. eq_bytes p (47 ∷ []) ≡ true) (sym e) (eq_bytes_refl (47 ∷ [])) in
    cc
inner parent (inr s) u = s

pub append_component-IsSafePath :
    (parent name path : List ℕ)
    → IsFolderPath parent
    → safe_component name ≡ true
    → append_component parent name ≡ some path
    → IsSafePath path × (length path < 1024) × (length parent < length path)
unfolding append_component
append_component-IsSafePath parent name path f s e = elim (Bool-cases (eq_bytes parent (47 ∷ []))) [
  | inl t ↦
      let same = eq_bytes→eq parent (47 ∷ []) t in
      let q = fits (47 ∷ name) path (
        subst
          (λ (b : Bool).
            (if ltb (length (if b then 47 ∷ name else parent ++ (47 ∷ name))) 1024
              then some (if b then 47 ∷ name else parent ++ (47 ∷ name))
              else none)
            ≡ some path)
          t e) in
      let one : length parent ≡ 1 = ap (λ xs. length xs) same in
      let len : length path ≡ suc (length name) = sym (ap (λ xs. length xs) q.0) in
      (subst IsSafePath q.0 (at_root name s), q.1, omega (arith, one, len, safe_nonempty name s))
  | inr u ↦
      let q = fits (parent ++ (47 ∷ name)) path (
        subst
          (λ (b : Bool).
            (if ltb (length (if b then 47 ∷ name else parent ++ (47 ∷ name))) 1024
              then some (if b then 47 ∷ name else parent ++ (47 ∷ name))
              else none)
            ≡ some path)
          u e) in
      let len : length path ≡ length (parent ++ (47 ∷ name)) = sym (ap (λ xs. length xs) q.0) in
      (
        subst IsSafePath q.0 (below parent name (inner parent f u) s),
        q.1,
        omega (arith, len, length-append {0} parent (47 ∷ name)),
      )
]

room_of :
    (b g : Bool) (doubled capacity room : ℕ)
    → (if b then if g then some doubled else none else some capacity) ≡ some room
    → ((b ≡ true) × (room ≡ doubled)) ⊎ ((b ≡ false) × (room ≡ capacity))
room_of true true doubled capacity room e = inl (refl, cc)
room_of true false doubled capacity room e = cc
room_of false g doubled capacity room e = inr (refl, cc)

grow-room :
    (memory : Memory) (first count capacity room : ℕ)
    → 0 < first
    → count ≤ capacity
    → grow memory first count capacity ≡ some room
    → suc count ≤ room
unfolding grow
grow-room memory first count capacity room f h e =
    let doubled = if capacity == 0 then first else capacity * 2 in
    elim (room_of (count == capacity) (memory.gives_elements doubled) doubled capacity room e) [
      | inl q ↦ let b = q.0 in let r = q.1 in ground (arith, b, r, f, h)
      | inr q ↦ let b = q.0 in let r = q.1 in ground (arith, b, r, f, h)
    ]

pub set_failure-IsListing :
    (n : ℕ) (r : InstallerResult) (value : ℤ) (partition path operation : List ℕ)
    → IsListing n r
    → IsListing n (set_failure r value partition path operation)
unfolding set_failure
set_failure-IsListing n r value partition path operation h =
    if_intro (IsListing n) _ _ _ (λ _. h) (λ _. h)

length-change_at :
    (index : ℕ) (f : PartitionResult → PartitionResult) (ps : List PartitionResult)
    → length (change_at index f ps) ≡ length ps
unfolding change_at
length-change_at index f [] = refl
length-change_at zero f (p ∷ ps) = refl
length-change_at (suc index) f (p ∷ ps) = ap suc (length-change_at index f ps)

AreLeft-change_at :
    (index : ℕ) (f : PartitionResult → PartitionResult) (ps : List PartitionResult)
    → ((p : PartitionResult) → IsLeft p → IsLeft (f p))
    → AreLeft ps
    → AreLeft (change_at index f ps)
unfolding change_at
AreLeft-change_at index f [] k h = h
AreLeft-change_at zero f (p ∷ ps) k h = (k p h.0, h.1)
AreLeft-change_at (suc index) f (p ∷ ps) k h = (h.0, AreLeft-change_at index f ps k h.1)

pub change-IsListing :
    (n index : ℕ) (f : PartitionResult → PartitionResult) (r : InstallerResult)
    → ((p : PartitionResult) → IsLeft p → IsLeft (f p))
    → IsListing n r
    → IsListing n (change index f r)
change-IsListing n index f r k h = (
  h.0,
  h.1,
  h.2,
  length-change_at index f r.partitions ∙ h.3,
  AreLeft-change_at index f r.partitions k h.4,
  h.5,
)

place_item-IsListing :
    (memory : Memory) (n : ℕ) (it : SourceItem) (r : InstallerResult) (o : Option ℕ)
    → ((room : ℕ) → o ≡ some room → suc (length r.items) ≤ room)
    → IsSafeItem n it
    → IsListing n r
    → IsListing n (place_item memory it r o).1
unfolding place_item
place_item-IsListing memory n it r none b s h = h
place_item-IsListing memory n it r (some room) b s h =
    let P : ℤ × InstallerResult → Type 0 = λ out. IsListing n out.1 in
    let more = b room refl in
    if_intro P (memory.gives_copy it.relative_path) _ _
      (λ _. (
        AreSafeItems-append n r.items it h.0 s,
        omega (arith, more, length-append {0} r.items (it ∷ [])),
        h.2,
        h.3,
        h.4,
        h.5,
      ))
      (λ _. (h.0, omega (arith, more), h.2, h.3, h.4, h.5))

pub append_item-IsListing :
    (memory : Memory) (n : ℕ) (it : SourceItem) (r : InstallerResult)
    → IsSafeItem n it
    → IsListing n r
    → IsListing n (append_item memory it r).1
unfolding append_item
append_item-IsListing memory n it r s h =
    place_item-IsListing memory n it r (grow memory 128 (length r.items) r.item_capacity)
      (λ room e. grow-room memory 128 (length r.items) r.item_capacity room (omega arith) h.1 e) s h

place_unknown-IsListing :
    (memory : Memory) (n : ℕ) (name : List ℕ) (r : InstallerResult) (o : Option ℕ)
    → ((room : ℕ) → o ≡ some room → suc (length r.unknown_top_level_names) ≤ room)
    → IsListing n r
    → IsListing n (place_unknown memory name r o).1
unfolding place_unknown
place_unknown-IsListing memory n name r none b h = h
place_unknown-IsListing memory n name r (some room) b h =
    let P : ℤ × InstallerResult → Type 0 = λ out. IsListing n out.1 in
    let more = b room refl in
    if_intro P (memory.gives_copy name) _ _
      (λ _. (
        h.0,
        h.1,
        omega (arith, more, length-append {0} r.unknown_top_level_names (name ∷ [])),
        h.3,
        h.4,
        h.5,
      ))
      (λ _. (h.0, h.1, omega (arith, more), h.3, h.4, h.5))

pub append_unknown-IsListing :
    (memory : Memory) (n : ℕ) (name : List ℕ) (r : InstallerResult)
    → IsListing n r
    → IsListing n (append_unknown memory name r).1
unfolding append_unknown
append_unknown-IsListing memory n name r h =
    let names = length r.unknown_top_level_names in
    place_unknown-IsListing memory n name r (grow memory 8 names r.unknown_top_level_capacity)
      (λ room e. grow-room memory 8 names r.unknown_top_level_capacity room (omega arith) h.2 e) h
