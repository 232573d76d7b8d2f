-- ===== src/Psx1/Package/Filled.antt =====
-- The pipeline of src/psx1_pipeline.c with the installer of src/installer.c, which provides what it
-- relies on.
use repair_box_psx_hdd_setup.Base.{
  ℕ, ◌≡◌, refl, ◌⊎◌, inl, inr, true, false, List, length, both_ways, arith,
}
use repair_box_psx_hdd_setup.Base.Io.{Io}
use repair_box_psx_hdd_setup.FileXio.{FileXio}
use repair_box_psx_hdd_setup.Drive.{Drive, Mounts}
use repair_box_psx_hdd_setup.Inspector.{InspectorData}
use repair_box_psx_hdd_setup.Xfrom.Copy.{SourceMedia}
use repair_box_psx_hdd_setup.Installer.{
  InstallerResult, installer_initialize_psx1, initialize_for_revision,
}
use repair_box_psx_hdd_setup.Installer.Scan.{Memory}
use repair_box_psx_hdd_setup.Installer.Scan.Source.{installer_scan_source}
use repair_box_psx_hdd_setup.Installer.Scan.Safe.{IsListing}
use repair_box_psx_hdd_setup.Installer.Scan.Root.{scan_source-IsListing}
use repair_box_psx_hdd_setup.Installer.Execute.{installer_execute}
use repair_box_psx_hdd_setup.Installer.Execute.Outcome.{IsComplete, installer_execute-IsComplete}
use repair_box_psx_hdd_setup.Psx1.{Parts, psx1_prepare}
use repair_box_psx_hdd_setup.Psx1.FormatJob.{Formatter}
use repair_box_psx_hdd_setup.Psx1.Execute.{psx1_execute}
use repair_box_psx_hdd_setup.Psx1.Execute.Stages.{IsInstalled}
use repair_box_psx_hdd_setup.Psx1.Package.{Contract, psx1_places}

-- What the pipeline uses of src/psx1_inspector.c.
pub record Inspects (io : FileXio) : Type 0 where
  pub inspector_initialize : Io io.World InspectorData
  pub inspector_scan_layout : InspectorData → Io io.World InspectorData
  pub inspector_scan : InspectorData → Io io.World InspectorData

module _ (io : FileXio) (inspects : Inspects io) (mounts : Mounts io) (media : SourceMedia)
    (memory : Memory) (root stack : List ℕ) (fuel : ℕ) where
  -- The pipeline's parts with the program's installer.
  abbrev pub installer_parts : Parts io
  installer_parts = record {
    inspector_initialize = inspects.inspector_initialize;
    inspector_scan_layout = inspects.inspector_scan_layout;
    inspector_scan = inspects.inspector_scan;
    Package = InstallerResult;
    installer_initialize_psx1 = installer_initialize_psx1 root;
    installer_scan_source = installer_scan_source io media memory fuel;
    installer_execute = installer_execute io mounts media stack fuel;
    confirm = λ r. record r { confirmation_received = true };
    source_scan_valid = λ r. r.source_scan_valid;
    system_files_install_valid = λ r. r.system_files_install_valid;
    failure_return = λ r. r.failure.return_value;
  }

  -- The installer's answer to a request whose listing is one that the scan makes, and complete.
  abbrev pub IsFilled : InstallerResult → Type 0
  IsFilled out =
      (r : InstallerResult) × (u : io.World) × (out
        ≡ (installer_execute io mounts media stack fuel r u).0)
      × IsListing 4 r
      × IsComplete io mounts media stack fuel r out

  initial-IsListing : IsListing 4 (installer_initialize_psx1 root)
  unfolding installer_initialize_psx1 initialize_for_revision
  initial-IsListing =
      (tt, omega arith, omega arith, refl, (inl refl, (inl refl, (inl refl, (inl refl, tt)))), refl)

  fills :
      (r : InstallerResult) (w : io.World)
      → length stack ≡ 64
      → IsListing 4 r
      → (installer_execute io mounts media stack fuel r w).0.system_files_install_valid ≡ true
      → IsFilled (installer_execute io mounts media stack fuel r w).0
  fills r w s h e = elim (installer_execute-IsComplete io mounts media stack fuel r w s h.5 h.4) [
    | inl f ↦ both_ways _ e f
    | inr k ↦ (r, w, refl, h, k)
  ]

  installer_contract : length stack ≡ 64 → Contract io installer_parts
  installer_contract s = record {
    IsFresh = IsListing 4;
    IsPlaced = IsFilled;
    initial_fresh = initial-IsListing;
    scan_fresh = λ r w h. scan_source-IsListing io media memory fuel 4 r w h;
    confirm_fresh = λ r h. h;
    places = λ r w h e. fills r w s h e;
  }

  -- Prepared and executed with the program's own installer, the pipeline reports no success, or every
  -- stage has succeeded and the package on the disk is complete: the package is what the installer
  -- answered to a request whose listing has safe names only; the request was permitted, no failure is
  -- reported, of each of its partitions for which the scan has found files every file of the listing
  -- was copied and read back with its SHA-256 and its size, and every partition that was mounted was
  -- unmounted. The states in which the two are called are any.
  pub psx1_execute-IsFilled :
      (drive : Drive io) (formatter : Formatter io) (bound : ℕ) (w w' : io.World)
      → length stack ≡ 64
      → let out =
          (psx1_execute io installer_parts drive formatter bound
            (psx1_prepare io installer_parts w).0
            w').0 in
        (out.psx1_installation_valid ≡ false)
        ⊎ (IsInstalled io installer_parts drive formatter bound out × IsFilled out.installer)
  unfolding installer_contract
  psx1_execute-IsFilled drive formatter bound w w' s =
      psx1_places io installer_parts drive formatter bound (installer_contract s) w w'
