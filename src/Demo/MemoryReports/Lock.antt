-- ===== src/Demo/MemoryReports/Lock.antt =====
-- What a lock means in app/demo/memory_reports.py, and how a submission lifts it.
use khalij_intelligent_energ.Base.{
  ℕ, String, true, ◌≡◌, refl, ◌∙◌, inl, inr, some, [], ◌∷◌, ◌==◌, arith, Bool-cases,
}
use khalij_intelligent_energ.Base.Result.{ok}
use khalij_intelligent_energ.Base.Table.{Table, lookup, insert, lookup-insert}
use khalij_intelligent_energ.Demo.MemoryReports.{
  MemoryStatus, is_locked, MemoryCarbonReport, MemoryReportStore, has_same_key, find_existing,
  overwrite, put_report, upsert, set_assurance, submit_assurance,
}

module _ {F : Type 0} where
  -- Saving what was found in a form that is still found.
  find_existing-insert :
      (report new existing : MemoryCarbonReport F) (id : ℕ) (rows : Table (MemoryCarbonReport F))
      → find_existing report rows ≡ some (id, existing)
      → has_same_key report new ≡ true
      → find_existing report (insert id new rows) ≡ some (id, new)
  unfolding find_existing insert
  find_existing-insert report new existing id [] h same = cc
  find_existing-insert report new existing id ((key, row) ∷ rows) h same =
      elim (Bool-cases (key == id)) [
        | inl t ↦ ground arith
        | inr f ↦ elim (Bool-cases (has_same_key report row)) [
          | inl t' ↦ ground arith
          | inr f' ↦ ground (arith, find_existing-insert report new existing id rows)
        ]
      ]

  find_existing-has_same_key :
      (report existing : MemoryCarbonReport F) (id : ℕ) (rows : Table (MemoryCarbonReport F))
      → find_existing report rows ≡ some (id, existing)
      → has_same_key report existing ≡ true
  unfolding find_existing
  find_existing-has_same_key report existing id [] h = cc
  find_existing-has_same_key report existing id ((key, row) ∷ rows) h =
      ground (arith, find_existing-has_same_key report existing id rows)

  -- A locked report is kept when it is generated again. But a submission of it is accepted and makes
  -- it a submitted one, and then generating it again overwrites the end of its period, the three
  -- scopes, intensity, product, samples and version of the factors.
  pub submission_lifts_lock :
      (report existing : MemoryCarbonReport F) (id : ℕ) (user : String) (m : MemoryReportStore F)
      → find_existing report m.reports ≡ some (id, existing)
      → lookup id m.reports ≡ some existing
      → is_locked existing.assurance_status ≡ true
      → let opened : MemoryCarbonReport F = record existing {
        assurance_status = MemoryStatus.submitted;
        submitted_by = some user;
      } in
        (upsert report m ≡ ((id, existing), m))
        × ((submit_assurance id user m).0 ≡ ok opened)
        × (lookup id (submit_assurance id user m).1.reports ≡ some opened)
        × (lookup id (upsert report (submit_assurance id user m).1).1.reports
            ≡ some (record opened {
              period_end = report.period_end;
              scope1_kgco2 = report.scope1_kgco2;
              scope2_kgco2 = report.scope2_kgco2;
              scope3_kgco2 = report.scope3_kgco2;
              carbon_intensity_kgco2_ton = report.carbon_intensity_kgco2_ton;
              product_ton = report.product_ton;
              sample_count = report.sample_count;
              factors_version = report.factors_version;
            }))
  unfolding upsert submit_assurance set_assurance overwrite
  submission_lifts_lock report existing id user m found there locked =
      let opened : MemoryCarbonReport F = record existing {
        assurance_status = MemoryStatus.submitted;
        submitted_by = some user;
      } in
      let submitted : submit_assurance id user m ≡ (ok opened, put_report id opened m) =
        ground arith in
      let same = find_existing-has_same_key report existing id m.reports found in
      let again = find_existing-insert report opened existing id m.reports found same in
      let after = overwrite report opened in
      let stored : (upsert report (put_report id opened m)).1
          ≡ put_report id after (put_report id opened m) =
        ground arith in
      (
        ground arith,
        rw submitted refl,
        rw submitted (lookup-insert id id opened m.reports ∙ ground arith),
        rw (submitted, stored)
            (lookup-insert id id after (insert id opened m.reports) ∙ ground arith),
      )
