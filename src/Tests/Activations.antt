-- ===== src/Tests/Activations.antt =====
-- The theorems on src/activation.c at a file system in memory whose reads and writes are short.
use repair_box_psx_hdd_setup.Base.{
  ℕ, pos, ◌≡◌, refl, ◌↔◌, true, false, ◌&&◌, List, [], ◌∷◌, replicate, eq_bytes, arith,
}
use repair_box_psx_hdd_setup.Bootflag.Image.{expected_sha1}
use repair_box_psx_hdd_setup.FileXio.LawfulFile.{LawfulFile}
use repair_box_psx_hdd_setup.Activation.Read.{bootflag_path, image_valid, read_image}
use repair_box_psx_hdd_setup.Activation.Reading.{IsWhole, read_image-IsWhole}
use repair_box_psx_hdd_setup.Activation.Prepare.{
  activation_initialize, activation_prepare, is_pending,
}
use repair_box_psx_hdd_setup.Activation.Preparing.{prepare_outcome, standard, standard_facts}
use repair_box_psx_hdd_setup.Activation.Arm.{activation_arm_pending, write_loop}
use repair_box_psx_hdd_setup.Activation.Arming.{IsArmedFile, arm_pending_armed}
use repair_box_psx_hdd_setup.Activation.Success.{prepare_arm_succeeds}
use repair_box_psx_hdd_setup.Activation.Writing.{Written, write_loop_writes}
use repair_box_psx_hdd_setup.Tests.Memory.{Disk, memory, memory_lawful}

abbrev stack : List ℕ
stack = replicate 64 7

-- A flash file of three bytes.
abbrev short_disk : Disk
short_disk = record { content = 1 ∷ 2 ∷ 3 ∷ []; at = 0 }

abbrev standard_disk : Disk
standard_disk = record { content = standard.bytes; at = 0 }

abbrev flash : LawfulFile memory bootflag_path
flash = memory_lawful bootflag_path

first_unarmed : activation_initialize.already_armed ≡ false
unfolding activation_initialize
first_unarmed = refl

never_armed : activation_initialize.sony_activation_armed ≡ false
unfolding activation_initialize
never_armed = refl

nothing_kept :
    image_valid activation_initialize.original
      && is_pending activation_initialize.original.inspection.state
    ≡ false
unfolding activation_initialize image_valid
nothing_kept = refl

prepare_arm_succeeds_example :
    let out =
      activation_arm_pending memory stack
        (activation_prepare activation_initialize)
        true
        true
        short_disk in
    (out.0.0 ≡ pos 0) × (out.0.1.sony_activation_armed ≡ true) × (out.1.content ≡ standard.bytes)
unfolding memory_lawful
prepare_arm_succeeds_example =
    prepare_arm_succeeds memory stack flash activation_initialize short_disk first_unarmed
      nothing_kept

arm_pending_armed_example :
    let out = (activation_arm_pending memory stack activation_initialize true true short_disk).0 in
    ((out.0 ≡ pos 0) ↔ (out.1.sony_activation_armed ≡ true))
    × (out.1.sony_activation_armed ≡ true
        → ((true ≡ true)
            × (true ≡ true)
            × (activation_initialize.generation_valid ≡ true)
            × (activation_initialize.already_armed ≡ false))
          × (out.1.write_result ≡ pos 512)
          × (out.1.bytes_written ≡ 512)
          × IsArmedFile activation_initialize.generated.bytes out.1.pending_readback)
arm_pending_armed_example =
    arm_pending_armed memory stack activation_initialize true true short_disk never_armed

prepare_outcome_example :
    let r = activation_initialize in
    let p = activation_prepare r in
    let kept = image_valid r.original && is_pending r.original.inspection.state in
    (kept ≡ true
      → (p.already_armed ≡ eq_bytes r.original.sha1 expected_sha1)
        × (p.generated ≡ r.generated)
        × (p.generation_valid ≡ r.generation_valid)
        × (p.replacement_required ≡ r.replacement_required))
    × (kept ≡ false
        → (p.generation_valid ≡ true)
          × (p.generated ≡ standard)
          × (p.replacement_required ≡ true)
          × (p.already_armed ≡ r.already_armed))
prepare_outcome_example = prepare_outcome activation_initialize

read_image-IsWhole_example :
    IsWhole memory flash standard.bytes standard_facts.size stack
      (read_image memory stack bootflag_path standard_disk).0
    × flash.Holds standard.bytes (read_image memory stack bootflag_path standard_disk).1
unfolding memory_lawful
read_image-IsWhole_example =
    read_image-IsWhole memory flash standard.bytes standard_facts.size stack standard_disk refl

write_loop_writes_example :
    Written memory flash
      (pos 3)
      []
      (4 ∷ 5 ∷ [])
      0
      (write_loop memory 2 (pos 3) (4 ∷ 5 ∷ []) 0 (record { content = []; at = 0 }))
unfolding memory_lawful
write_loop_writes_example =
    write_loop_writes memory flash 2 (pos 3) [] (4 ∷ 5 ∷ []) 0 (record { content = []; at = 0 })
      (omega arith) refl
