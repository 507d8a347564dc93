-- ===== src/Roster/Coverage/Gaps.antt =====
-- The gaps that are reported are the uncovered part of the range.
use Prim.Native.Nat.{min}
use nightowl.Base.{
  ℕ, zero, suc, ◌+◌, ◌-◌, ◌≤◌, ◌<◌, ◌≡◌, refl, inl, inr, Bool, true, false, List, [], ◌∷◌, ◌++◌,
  ltb, ltb→lt, arith, if◌then◌else◌, Bool-cases,
}
use nightowl.Roster.Coverage.{
  CoverageSlot, GapInfo, GapTracking, duration, close_gap, track_gap, finish_gaps, cover,
}

abbrev pub total : List GapInfo → ℕ
total [] = 0
total (g ∷ gs) = duration g + total gs

total-append : (xs : List GapInfo) (g : GapInfo) → total (xs ++ g ∷ []) ≡ total xs + duration g
total-append [] g = omega arith
total-append (x ∷ xs) g = omega (arith, total-append xs g)

module _ (slot_at : ℕ → CoverageSlot) (to step : ℕ) where
  -- The uncovered seconds of the slots from `at` on; the last slot ends with the range.
  abbrev pub uncovered : ℕ → List CoverageSlot → ℕ
  uncovered at [] = 0
  uncovered at (slot ∷ slots) =
      (if slot.gap then min (at + step) to - at else 0) + uncovered (at + step) slots

  -- The part of an open gap that lies behind `at`.
  abbrev open_part : ℕ → GapTracking → ℕ
  open_part at t = if t.in_gap then min at to - t.gap_start else 0

  record IsTracking (at : ℕ) (t : GapTracking) : Type 0 where
    started : t.in_gap ≡ true → t.gap_start ≤ min at to

  track_gap-total :
      (gap : Bool) (at : ℕ) (t : GapTracking)
      → at < to
      → IsTracking at t
      → total (track_gap gap at t).gaps + open_part (at + step) (track_gap gap at t)
        ≡ total t.gaps + open_part at t + (if gap then min (at + step) to - at else 0)
  unfolding track_gap close_gap
  track_gap-total true at t before h = ground (arith, h.started)
  track_gap-total false at t before h =
      ground (arith, h.started, total-append t.gaps (record { start = t.gap_start; end = at }))

  track_gap-IsTracking :
      (gap : Bool) (at : ℕ) (t : GapTracking)
      → at < to
      → IsTracking at t
      → IsTracking (at + step) (track_gap gap at t)
  unfolding track_gap close_gap
  track_gap-IsTracking true at t before h = record { started = λ e. ground (arith, h.started) }
  track_gap-IsTracking false at t before h = record { started = λ e. ground (arith, h.started) }

  finish_gaps-total :
      (at : ℕ) (t : GapTracking)
      → to ≤ at
      → total (finish_gaps to t).gaps ≡ total t.gaps + open_part at t
  unfolding finish_gaps close_gap
  finish_gaps-total at t after =
      ground (arith, total-append t.gaps (record { start = t.gap_start; end = to }))

  -- The slots stand at `at`, `at + step` and so on, as long as that lies before the end.
  abbrev pub AreSlots : ℕ → List CoverageSlot → Type 0
  AreSlots at [] = to ≤ at
  AreSlots at (slot ∷ slots) = (at < to) × (slot ≡ slot_at at) × AreSlots (at + step) slots

  cover-AreSlots :
      (fuel at : ℕ) (t : GapTracking)
      → 0 < step
      → to ≤ at + fuel
      → AreSlots at (cover slot_at to step fuel at t).0
  unfolding cover
  cover-AreSlots zero at t pos enough = omega arith
  cover-AreSlots (suc fuel) at t pos enough = elim (Bool-cases (ltb at to)) [
    | inl more ↦ rw more (
      ltb→lt at to more,
      refl,
      cover-AreSlots fuel (at + step) (track_gap (slot_at at).gap at t) pos (omega arith),
    )
    | inr done ↦ rw done (ground arith)
  ]

  cover-total :
      (fuel at : ℕ) (t : GapTracking)
      → 0 < step
      → to ≤ at + fuel
      → IsTracking at t
      → total (finish_gaps to (cover slot_at to step fuel at t).1).gaps
        ≡ total t.gaps + open_part at t + uncovered at (cover slot_at to step fuel at t).0
  unfolding cover
  cover-total zero at t pos enough h = omega (arith, finish_gaps-total at t (omega arith))
  cover-total (suc fuel) at t pos enough h = elim (Bool-cases (ltb at to)) [
    | inl more ↦
        let before = ltb→lt at to more in
        let gap = (slot_at at).gap in
        let rest =
          cover-total fuel (at + step) (track_gap gap at t) pos (omega arith)
            (track_gap-IsTracking gap at t before h) in
        rw more (omega (arith, rest, track_gap-total gap at t before h))
    | inr done ↦ rw done (omega (arith, finish_gaps-total at t (ground arith)))
  ]

  -- With a positive step, as many rounds as the range has seconds suffice: the slots reach to the
  -- end of the range, and the gaps reported add up to exactly the uncovered time.
  pub coverage_gaps :
      (from : ℕ)
      → 0 < step
      → let none_yet : GapTracking = record {
        in_gap = false;
        gap_start = 0;
        total_gap_minutes = 0;
        gaps = [];
      } in
        let covered = cover slot_at to step (to - from) from none_yet in
        AreSlots from covered.0 × (total (finish_gaps to covered.1).gaps ≡ uncovered from covered.0)
  coverage_gaps from pos =
      let none_yet : GapTracking = record {
        in_gap = false;
        gap_start = 0;
        total_gap_minutes = 0;
        gaps = [];
      } in
      (
        cover-AreSlots (to - from) from none_yet pos (omega arith),
        omega (
          arith,
          cover-total (to - from) from none_yet pos (omega arith) (record { started = λ e. cc }),
        ),
      )
