-- ===== src/Partition/UsageLaws.antt =====
-- What `set_sector_usage` and the displayed figures of src/Partition.cc promise.
use gparted_android.Prelude.{◌≡◌, true, arith, Bool-cases, inl, inr}
use gparted_android.Prelude.Int.{
  ℤ, pos, ◌+ℤ◌, ◌≤ℤ◌, ltb_ℤ, int_laws, parts_of_eq, le→leb_ℤ, ltb_ℤ→lt,
}
use gparted_android.Partition.{Attributes}
use gparted_android.Partition.Basic.{get_sector_length}
use gparted_android.Partition.Usage.{
  Doubles, sizes_fit, set_sector_usage, calc_significant_unallocated_sectors, estimated_min_size,
  get_sectors_used, get_sectors_unused, get_sectors_unallocated,
}

-- The three figures split the partition.
pub record Splits (len : ℤ) (a : Attributes) : Type 0 where
  pub used : pos 0 ≤ℤ a.sectors_used
  pub unused : pos 0 ≤ℤ a.sectors_unused
  pub unallocated : pos 0 ≤ℤ a.sectors_unallocated
  pub threshold : pos 1 ≤ℤ a.significant_threshold
  pub total : a.sectors_used +ℤ a.sectors_unused +ℤ a.sectors_unallocated ≡ len

pub sizes_fit_bounds :
    (len fs_size fs_unused : ℤ)
    → sizes_fit len fs_size fs_unused ≡ true
    → (fs_size ≤ℤ len) × (pos 0 ≤ℤ fs_unused) × (fs_unused ≤ℤ fs_size)
sizes_fit_bounds len fs_size fs_unused h = ground arith

module _ (d : Doubles) where
  threshold_pos : (a : Attributes) → pos 1 ≤ℤ calc_significant_unallocated_sectors d a
  unfolding calc_significant_unallocated_sectors
  threshold_pos a = ground arith

  -- Figures of a file system that fit the length of the partition split that length into used, unused
  -- and unallocated sectors, none of them negative, with a threshold of at least one sector.
  pub set_sector_usage-Splits :
      (fs_size fs_unused : ℤ) (a : Attributes)
      → sizes_fit (get_sector_length a) fs_size fs_unused ≡ true
      → Splits (get_sector_length a) (set_sector_usage d fs_size fs_unused a)
  unfolding set_sector_usage
  set_sector_usage-Splits fs_size fs_unused a h =
      let b = sizes_fit_bounds _ fs_size fs_unused h in
      rw h (record {
        used = omega int_laws;
        unused = b.1;
        unallocated = omega int_laws;
        threshold = threshold_pos a;
        total = omega int_laws;
      })

-- The figures shown to the user add up to the length of a partition whose figures are known and split
-- it.
pub displayed_total :
    (len : ℤ) (a : Attributes)
    → Splits len a
    → get_sectors_used a +ℤ get_sectors_unused a +ℤ get_sectors_unallocated a ≡ len
unfolding get_sectors_used get_sectors_unused get_sectors_unallocated
displayed_total len a s =
    rw (le→leb_ℤ _ _ s.used)
      (elim (Bool-cases (ltb_ℤ a.sectors_unallocated a.significant_threshold)) [
        | inl e ↦ rw e (omega (int_laws, parts_of_eq s.total))
        | inr e ↦ rw e s.total
      ])

-- The estimated minimum lies between the used sectors and the whole length.
pub estimated_min_size_bounds :
    (len : ℤ) (a : Attributes)
    → Splits len a
    → (a.sectors_used ≤ℤ estimated_min_size a) × (estimated_min_size a ≤ℤ len)
unfolding estimated_min_size
estimated_min_size_bounds len a s =
    rw (le→leb_ℤ _ _ s.used)
      (elim (Bool-cases (ltb_ℤ a.significant_threshold a.sectors_unallocated)) [
        | inl e ↦ rw e (omega (int_laws, ltb_ℤ→lt, parts_of_eq s.total))
        | inr e ↦ rw e (omega (int_laws, parts_of_eq s.total))
      ])
