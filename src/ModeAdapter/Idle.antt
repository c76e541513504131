-- ===== src/ModeAdapter/Idle.antt =====
-- When a timestamped cloud report counts as idle.
use goodwe_wallbox_sems_home.Prelude.{
  ◌∙◌, ℕ, ◌≡◌, refl, ap, sym, ◌⊎◌, inl, inr, Bool, true, false, not, ◌||◌, Option, none, some,
  String, if◌then◌else◌, arith,
}
use goodwe_wallbox_sems_home.Prelude.Maps.{get}
use goodwe_wallbox_sems_home.Prelude.Value.{Real, Value, ℤ}
use goodwe_wallbox_sems_home.ModeAdapter.Report.{
  Marker, Report, is_text, is_false, number, is_positive, is_measured, status_text, is_offline,
  modern_idle, observation_marker,
}
use goodwe_wallbox_sems_home.ModeAdapter.Read.{
  unverified, unavailable, Outcome, ok, raised, Reading, timestamped, reported_mode,
  is_waiting_name, modbus_active, timestamped_active, legacy_active, configured, with_settings,
  timestamped_read, has_marker, with_mode, read, reading,
}

module _ (parse : String → Option Real) (stamp : Value → Option Marker) where
  -- Explicit idle evidence, or a measured power of zero in a waiting state.
  abbrev pub IsIdle : Report → Type 0
  IsIdle d =
      (modern_idle d ≡ true)
      ⊎ ((is_measured (number parse (get "power" d)) ≡ true)
          × (is_positive (number parse (get "power" d)) ≡ false)
          × (is_waiting_name (status_text (get "status" d)) ≡ true))

  active-Idle : (d : Report) → timestamped_active parse stamp d ≡ some false → IsIdle d
  unfolding timestamped_active
  active-Idle d h =
      go (modern_idle d) refl (is_measured p) refl (is_positive p) refl (is_waiting_name t) refl h
    where
      p : Option ℤ
      p = number parse (get "power" d)

      t : String
      t = status_text (get "status" d)

      go :
          (a : Bool)
          → modern_idle d ≡ a
          → (b : Bool) → is_measured p ≡ b
          → (c : Bool) → is_positive p ≡ c
          → (e : Bool) → is_waiting_name t ≡ e
          → (if a then some false else if b then some (c || not e) else none) ≡ some false
          → IsIdle d
      go true f b g c k e l h = inl f
      go false f false g c k e l h = absurd (ground (arith, h))
      go false f true g true k e l h = absurd (ground (arith, h))
      go false f true g false k true l h = inr (g, k, l)
      go false f true g false k false l h = absurd (ground (arith, h))

  -- What a timestamped reading that came is known to be.
  pub record IsRead (serial : String) (d : Report) (r : Reading) : Type 0 where
    pub own : is_text serial (get "sn" d) ≡ true
    pub present : is_offline (status_text (get "status" d)) ≡ false
    pub mode : reported_mode timestamped d ≡ some r.mode
    pub marker : (m : Marker) × (r.marker ≡ some m) × (observation_marker stamp d ≡ some m)
    pub idle : (r.active ≡ true) ⊎ IsIdle d

  -- A reading of a timestamped cloud report is of the given serial, not offline, has the mode that
  -- the report names and its time, and is inactive only for a report that shows explicit idle
  -- evidence or measures no power in a waiting state.
  pub read-IsRead :
      (serial : String) (d : Report) (settings last : Option Report) (r : Reading)
      → read parse stamp timestamped serial (some d) settings last ≡ ok r
      → IsRead serial d r
  unfolding read modbus_active timestamped_active legacy_active configured
  read-IsRead serial d settings last r h =
      go (is_text serial (get "sn" d)) refl (is_false (get "_cloud_detail_available" d))
        (reported_mode timestamped d) refl h
    where
      m : Option Marker
      m = observation_marker stamp d

      out : Reading → Outcome Reading → Reading
      out x (ok y) = y
      out x (raised f) = x

      settled :
          (mode : ℕ) (active : Bool) (s : Option Report)
          → with_settings parse stamp serial d mode m active s ≡ ok r
          → (r.mode ≡ mode) × (r.marker ≡ m) × (r.active ≡ active)
      settled mode active none k = absurd (ground (arith, k))
      settled mode active (some s) k = matched (not (is_text serial (get "sn" s))) k
        where
          q : Reading
          q = reading parse stamp timestamped d mode m active (configured parse stamp mode s)

          matched :
              (x : Bool)
              → (let o : Outcome Reading = if x then raised unverified else ok q in o ≡ ok r)
              → (r.mode ≡ mode) × (r.marker ≡ m) × (r.active ≡ active)
          matched true j = absurd (ground (arith, j))
          matched false j =
              let e : q ≡ r = ap (out r) j in
              (
                ap (λ (x : Reading). x.mode) (sym e),
                ap (λ (x : Reading). x.marker) (sym e),
                ap (λ (x : Reading). x.active) (sym e),
              )

      judged :
          (mode : ℕ) (a : Option Bool)
          → timestamped_active parse stamp d ≡ a
          → timestamped_read parse stamp serial d mode m a settings ≡ ok r
          → (r.mode ≡ mode) × (r.marker ≡ m) × ((r.active ≡ true) ⊎ IsIdle d)
      judged mode none e k = absurd (ground (arith, k))
      judged mode (some true) e k = let s = settled mode true settings k in (s.0, s.1, inl s.2)
      judged mode (some false) e k =
          let s = settled mode false settings k in (s.0, s.1, inr (active-Idle d e))

      with_marker :
          (mode : ℕ) (x : Bool) (o : Option Marker)
          → is_offline (status_text (get "status" d)) ≡ x
          → m ≡ o
          → is_text serial (get "sn" d) ≡ true
          → reported_mode timestamped d ≡ some mode
          → (let s : Outcome Reading =
                if x || not (has_marker parse stamp o)
                then raised unverified
                else timestamped_read parse stamp serial d mode m
                    (timestamped_active parse stamp d)
                    settings in
              s ≡ ok r)
          → IsRead serial d r
      with_marker mode true o e f g n k = absurd (ground (arith, k))
      with_marker mode false none e f g n k = absurd (ground (arith, k))
      with_marker mode false (some a) e f g n k =
          let j = judged mode (timestamped_active parse stamp d) refl k in
          record {
            own = g;
            present = e;
            mode = n ∙ ap some (sym j.0);
            marker = (a, j.1 ∙ f, f);
            idle = j.2;
          }

      go :
          (x : Bool)
          → is_text serial (get "sn" d) ≡ x
          → (y : Bool) (o : Option ℕ) → reported_mode timestamped d ≡ o
          → (let s : Outcome Reading =
                if not x
                then raised unverified
                else if y
                then raised unavailable
                else with_mode parse stamp timestamped serial d o settings last in
              s ≡ ok r)
          → IsRead serial d r
      go false e y o f k = absurd (ground (arith, k))
      go true e true o f k = absurd (ground (arith, k))
      go true e false none f k = absurd (ground (arith, k))
      go true e false (some mode) f k =
          with_marker mode (is_offline (status_text (get "status" d))) m refl refl e f k
