-- ===== src/DirectReady40/Execute/Outcome.antt =====
-- What a finished `dr40_execute` of src/direct_ready40.c says of its stages.
use repair_box_psx_hdd_setup.Base.{is_negative, ◌≡◌, Bool, true, false, not, ◌||◌, ◌⊎◌}
use repair_box_psx_hdd_setup.Storage.{storage_refresh_layout_diagnostics}
use repair_box_psx_hdd_setup.DirectReady40.{
  mode_stop, mode_set_boundary, mode_initialize, Dr40Result, Console, devices_of, visible_sectors,
}
use repair_box_psx_hdd_setup.DirectReady40.Execute.{Session}
use repair_box_psx_hdd_setup.DirectReady40.Execute.Causes.{IsStopped}
use repair_box_psx_hdd_setup.DirectReady40.Execute.Ready.{IsReady}

abbrev pub IsPermitted : Dr40Result → Type 0
IsPermitted r =
    (r.confirmation_received ≡ true) × (r.session_write_locked ≡ false) × (r.preflight_valid ≡ true)

abbrev pub is_barred : Dr40Result → Bool
is_barred r = not r.confirmation_received || (r.session_write_locked || not r.preflight_valid)

-- Nothing was formatted between two results.
abbrev pub SameFormats : Dr40Result → Dr40Result → Type 0
SameFormats r out =
    (out.apa ≡ r.apa)
    × (out.dvr_hdd ≡ r.dvr_hdd)
    × (out.normal_pfs ≡ r.normal_pfs)
    × (out.dvr_pfs ≡ r.dvr_pfs)

module _ (c : Console) where
  -- The boundary was asked for once, behind which the devices were only scanned; the result of the call
  -- is reported, and is a failure of the run exactly where it is negative.
  abbrev pub IsBoundarySet : Session → c.io.World → Session × c.io.World → Type 0
  IsBoundarySet s w out =
      let set = c.volumes.set_max_lba28 visible_sectors w in
      let scan = storage_refresh_layout_diagnostics (devices_of c) c.fuel s.1 set.1 in
      (out.0.0.setmax40.return_value ≡ set.0)
      × (out.0.0.stopped_on_error ≡ is_negative set.0)
      × (out.0.0.power_cycle_required ≡ true)
      × SameFormats s.0 out.0.0
      × (out.0.1 ≡ scan.0)
      × (out.1 ≡ scan.1)

  -- How a run ends.
  pub data Ends (s : Session) (w : c.io.World) (out : Session × c.io.World) : Type 0 where
    refused : (is_barred s.0 ≡ true) ⊎ (s.0.mode ≡ mode_stop) → out ≡ (s, w) → Ends s w out
    boundary_set :
        IsPermitted s.0 → s.0.mode ≡ mode_set_boundary → IsBoundarySet s w out → Ends s w out
    ready :
        IsPermitted s.0 → s.0.mode ≡ mode_initialize → IsReady c s.0.installer out.0 → Ends s w out
    stopped : IsPermitted s.0 → s.0.mode ≡ mode_initialize → IsStopped c out.0.0 → Ends s w out
