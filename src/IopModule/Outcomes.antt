-- ===== src/IopModule/Outcomes.antt =====
-- Every outcome of `iop_module_find` of src/iop_module_lookup.c, and what it says of the list.
use repair_box_psx_hdd_setup.Base.{
  ℕ, zero, suc, ◌≤◌, ◌<◌, ℤ, pos, eio, enoent, eloop, ◌≡◌, inl, inr, true, false, ◌||◌, none, some,
  List, length, leb, ◌==◌, Bool-cases, Option-cases, arith,
}
use repair_box_psx_hdd_setup.IopModule.{
  ModulePrefix, read_module, is_named, find_loop, iop_module_find,
}

suc_not_zero : (a : ℕ) → (suc a == 0) ≡ false
suc_not_zero a = ground arith

module _ (smem_read : ℕ → ℕ → List ℕ) (name : List ℕ) where
  -- `Skips n a b`: from address `a` the list leads over `n` modules to address `b`, all can be read
  -- and none has the name.
  pub data Skips : ℕ → ℕ → ℕ → Type 0 where
    here : {a : ℕ} → Skips 0 a a
    skip :
        {n a b : ℕ} {prefix : ModulePrefix}
        → 0 < a
        → read_module smem_read a ≡ some prefix
        → is_named smem_read name prefix ≡ false
        → Skips n prefix.next b
        → Skips (suc n) a b

  -- What a result says of the list from an address on, of which `limit` modules are looked at.
  pub data Outcome : ℕ → ℕ → ℤ → Type 0 where
    found :
        {limit n a b : ℕ} {prefix : ModulePrefix}
        → n < limit
        → Skips n a b
        → 0 < b
        → read_module smem_read b ≡ some prefix
        → is_named smem_read name prefix ≡ true
        → Outcome limit a (pos prefix.id)
    missing : {limit n a : ℕ} → n ≤ limit → Skips n a 0 → Outcome limit a enoent
    unreadable :
        {limit n a b : ℕ}
        → n < limit
        → Skips n a b
        → 0 < b
        → read_module smem_read b ≡ none
        → Outcome limit a eio
    endless : {limit a b : ℕ} → Skips limit a b → 0 < b → Outcome limit a eloop

  skip-Outcome :
      {limit a : ℕ} {prefix : ModulePrefix} {z : ℤ}
      → 0 < a
      → read_module smem_read a ≡ some prefix
      → is_named smem_read name prefix ≡ false
      → Outcome limit prefix.next z
      → Outcome (suc limit) a z
  skip-Outcome p e f (found l s q r t) = found (omega arith) (skip p e f s) q r t
  skip-Outcome p e f (missing l s) = missing (omega arith) (skip p e f s)
  skip-Outcome p e f (unreadable l s q r) = unreadable (omega arith) (skip p e f s) q r
  skip-Outcome p e f (endless s q) = endless (skip p e f s) q

  at_end : (limit : ℕ) → Outcome limit 0 (find_loop smem_read name limit 0)
  unfolding find_loop
  at_end zero = missing (omega arith) here
  at_end (suc limit) = missing (omega arith) here

  find_loop-Outcome : (limit a : ℕ) → Outcome limit a (find_loop smem_read name limit a)
  unfolding find_loop
  find_loop-Outcome limit zero = at_end limit
  find_loop-Outcome zero (suc a) = rw (suc_not_zero a) (endless here (omega arith))
  find_loop-Outcome (suc limit) (suc a) = elim (Option-cases (read_module smem_read (suc a))) [
    | inl e ↦ rw (suc_not_zero a, e) (unreadable (omega arith) here (omega arith) e)
    | inr (prefix, e) ↦ elim (Bool-cases (is_named smem_read name prefix)) [
      | inl t ↦ rw (suc_not_zero a, e, t) (found (omega arith) here (omega arith) e t)
      | inr f ↦
          rw (suc_not_zero a, e, f)
            (skip-Outcome (omega arith) e f (find_loop-Outcome limit prefix.next))
    ]
  ]

  -- The lookup of a name of 1 to 63 bytes ends after at most 256 modules with one of four results:
  -- the id of the first module of the list from 0x800 on that has the name; -ENOENT where the list
  -- ends without one; -EIO where it leads to a module that cannot be read; and -ELOOP where none of
  -- 256 modules has the name and the list goes on.
  pub iop_module_find-Outcome :
      (0 < length name)
      → length name < 64
      → Outcome 256 0x800 (iop_module_find smem_read (some name))
  unfolding iop_module_find
  iop_module_find-Outcome p l =
      let e : (length name == 0) || leb 64 (length name) ≡ false = ground arith in
      rw e (find_loop-Outcome 256 0x800)
