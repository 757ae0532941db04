-- ===== src/Startup/Order.antt =====
-- cmd/main.go: what has been done when the manager starts.
use cf_edge_operator.Prelude.{
  ◌≡◌, refl, sym, ap, ◌∙◌, String, Bool, true, false, false≢true, Option, none, some, List, [], ◌∷◌,
  arith, if◌then◌else◌, ◌&&◌, ◌||◌, not,
}
use cf_edge_operator.Platform.Errors.{Err}
use cf_edge_operator.Hostname.Config.{hostname_field}
use cf_edge_operator.Zone.Config.{zone_ref_field}
use cf_edge_operator.Config.{
  pos_part, Flags, rejected_flag, custom_hostname_reconciler, zone_reconciler, BuildInfo,
  build_info,
}
use cf_edge_operator.Startup.{
  ServerFlags, manager_options, StartupCall, Exit, Run, attempt, perform, checked, worker_options,
  coordinator_options, setup_worker, setup_coordinator, run_manager, start_manager, main,
}

abbrev pub is_start : StartupCall → Bool
is_start StartupCall.start = true
is_start _ = false

abbrev pub starts : List StartupCall → Bool
starts [] = false
starts (c ∷ cs) = if is_start c then true else starts cs

-- The calls whose error `main` looks at and that come before the start.
abbrev pub is_checked : StartupCall → Bool
is_checked (StartupCall.publish_build_info version commit) = false
is_checked (StartupCall.make_channel size) = false
is_checked StartupCall.start = false
is_checked _ = true

-- None of these calls has failed.
abbrev pub succeeded : (StartupCall → Option Err) → List StartupCall → Bool
succeeded answers [] = true
succeeded answers (c ∷ cs) =
    (not (is_checked c) || elim (answers c) [ none ↦ true | some e ↦ false ])
    && succeeded answers cs

module _ (answers : StartupCall → Option Err) where
  -- The run makes just the calls `cs`, and those of them that are checked succeed.
  abbrev pub Makes : Run → List StartupCall → Type 0
  Makes run cs = (run.0 ≡ cs) × (succeeded answers cs ≡ true)

  -- If the run after a call makes just the calls `cs` when it comes to the start, then the run with
  -- the call makes just this call and `cs`.
  attempt-starts :
      (c : StartupCall) (answer : Option Err) (message : String) (next : Run)
      (cs : List StartupCall)
      → answers c ≡ answer
      → is_start c ≡ false
      → (starts next.0 ≡ true → Makes next cs)
      → starts (attempt c answer message next).0 ≡ true
      → Makes (attempt c answer message next) (c ∷ cs)
  attempt-starts c none message next cs answered other later started =
      let (made, fine) = later (ground (arith, other)) in
      (ap (λ cs. c ∷ cs) made, rw answered (rw fine (ground arith)))
  attempt-starts c (some e) message next cs answered other later started =
      absurd (false≢true (sym (ap (λ b. if b then true else false) other) ∙ started))

  attempt-start :
      (answer : Option Err) (message : String)
      → Makes
          (attempt StartupCall.start answer message ([], Exit.returned))
          (StartupCall.start ∷ [])
  attempt-start none message = (refl, refl)
  attempt-start (some e) message = (refl, refl)

  perform-Makes :
      (c : StartupCall) (next : Run) (cs : List StartupCall)
      → is_checked c ≡ false
      → Makes next cs
      → Makes (perform c next) (c ∷ cs)
  perform-Makes c next cs unchecked (made, fine) = (ap (λ cs. c ∷ cs) made, rw unchecked fine)

  checked-starts :
      (rejected : Option String) (next : Run) (cs : List StartupCall)
      → (starts next.0 ≡ true → Makes next cs)
      → starts (checked rejected next).0 ≡ true
      → (rejected ≡ none) × Makes (checked rejected next) cs
  checked-starts none next cs later started = (refl, later started)
  checked-starts (some flag) next cs later started = absurd (false≢true started)

-- The calls between the checks on the flags and the start of the manager.
abbrev pub preparations : Flags → ServerFlags → List StartupCall
preparations f s =
    StartupCall.new_manager (manager_options s)
    ∷ StartupCall.make_channel (pos_part f.drift_buffer)
    ∷ StartupCall.index_custom_hostnames hostname_field
    ∷ StartupCall.build_custom_hostname worker_options (custom_hostname_reconciler f)
    ∷ StartupCall.index_custom_hostnames zone_ref_field
    ∷ StartupCall.build_zone coordinator_options (zone_reconciler f)
    ∷ StartupCall.add_healthz
    ∷ StartupCall.add_readyz
    ∷ StartupCall.start
    ∷ []

module _ (answers : StartupCall → Option Err) (settings : Option (List (String × String)))
    (injected : BuildInfo) (f : Flags) (s : ServerFlags) where
  abbrev pub identified : StartupCall
  identified =
      let b = build_info settings injected in StartupCall.publish_build_info b.version b.commit

  start_manager-starts :
      starts (start_manager answers f s).0 ≡ true
      → Makes answers (start_manager answers f s) (preparations f s)
  unfolding start_manager setup_worker setup_coordinator run_manager
  start_manager-starts = attempt-starts answers _ _ _ _ _ refl refl λ started.
      perform-Makes answers _
        (setup_worker answers (custom_hostname_reconciler f)
          (setup_coordinator answers (zone_reconciler f) (run_manager answers)))
        _ refl
        (attempt-starts answers _ _ _ _ _ refl refl
          (attempt-starts answers _ _ _ _ _ refl refl (
            attempt-starts answers _ _ _ _ _ refl refl (
              attempt-starts answers _ _ _ _ _ refl refl (
                attempt-starts answers _ _ _ _ _ refl refl
                  (attempt-starts answers _ _ _ _ _ refl refl λ _. attempt-start answers _ _)))))
          started)

  -- If `main` comes to the start of the manager, then no flag was rejected, and these calls were made
  -- before, in this order: the build identity is published, the manager is made with the options that
  -- the flags give, the channel is made with the flag's buffer, for each controller the index of its
  -- field is registered and the controller is built from the flags, and the probes are added. Each
  -- of them that can fail, from the making of the manager to the last probe, has succeeded.
  pub main-start :
      starts (main answers settings injected f s).0 ≡ true
      → (rejected_flag f ≡ none)
        × ((main answers settings injected f s).0 ≡ identified ∷ preparations f s)
        × (succeeded answers (preparations f s) ≡ true)
  unfolding main
  main-start started =
      let (accepted, (made, fine)) =
        checked-starts answers (rejected_flag f) (start_manager answers f s) _ start_manager-starts
          started in
      (accepted, ap (λ cs. identified ∷ cs) made, fine)
