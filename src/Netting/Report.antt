-- ===== src/Netting/Report.antt =====
-- `netting_report`: its figures agree with one another.
use tradeguard_canton.Prelude.{
  String, ◌≡◌, refl, if◌then◌else◌, List, All, arith, Bool-cases, inl, inr,
}
use tradeguard_canton.Prelude.Int.{
  ℤ, pos, ◌+ℤ◌, ◌-ℤ◌, ◌≤ℤ◌, int_laws, eqb_ℤ, round_ratio, times_ℕ, round_ratio_share,
}
use tradeguard_canton.Netting.{
  Obligation, NettingReport, netting_report, minimal_settlement, gross, transferred,
}
use tradeguard_canton.Netting.Efficiency.{IsOwed, minimal_settlement_efficient}

-- The figures of a report fit together: what moves and what is netted out make up the gross, both
-- are between zero and the gross, and the percentage is between 0.0 and 100.0.
pub record IsConsistent (r : NettingReport) : Type 0 where
  pub parts : r.net_value +ℤ r.value_netted_out ≡ r.gross_value
  pub net_nonneg : pos 0 ≤ℤ r.net_value
  pub saved_nonneg : pos 0 ≤ℤ r.value_netted_out
  pub pct_nonneg : pos 0 ≤ℤ r.netting_efficiency_pct
  pub pct-le : r.netting_efficiency_pct ≤ℤ pos 1000

efficiency_pct_bounds :
    (saved whole : ℤ)
    → pos 0 ≤ℤ saved
    → saved ≤ℤ whole
    → let pct = if eqb_ℤ whole (pos 0) then pos 0 else round_ratio (times_ℕ 1000 saved) whole in
      (pos 0 ≤ℤ pct) × (pct ≤ℤ pos 1000)
efficiency_pct_bounds saved whole low high = elim (Bool-cases (eqb_ℤ whole (pos 0))) [
  | inl empty ↦ rw empty (omega arith, omega arith)
  | inr more ↦ rw more (round_ratio_share saved whole low high (ground arith))
]

-- The report of a book of positive obligations is consistent, and its gross value and its net
-- value are those of the book and of the residual transfers.
pub netting_report-IsConsistent :
    (obligations : List Obligation) (instrument : String)
    → All IsOwed obligations
    → IsConsistent (netting_report obligations instrument)
      × ((netting_report obligations instrument).gross_value ≡ gross obligations)
      × ((netting_report obligations instrument).net_value
          ≡ transferred (minimal_settlement obligations instrument))
unfolding netting_report
netting_report-IsConsistent os i h =
    let moved = transferred (minimal_settlement os i) in
    let bounds = minimal_settlement_efficient os i h in
    let pct =
      efficiency_pct_bounds (gross os -ℤ moved) (gross os) (omega int_laws) (omega int_laws) in
    (
      record {
        parts = omega int_laws;
        net_nonneg = bounds.1;
        saved_nonneg = omega (int_laws, bounds.0);
        pct_nonneg = pct.0;
        pct-le = pct.1;
      },
      refl,
      refl,
    )
