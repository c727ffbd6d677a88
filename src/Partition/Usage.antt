-- ===== src/Partition/Usage.antt =====
-- The usage figures of a plain partition (src/Partition.cc). A figure of -1 is unknown.
-- `double` is a parameter: the type and the operations that the code uses, written out in place.
use gparted_android.Prelude.{if◌then◌else◌, Bool, ◌&&◌}
use gparted_android.Prelude.Int.{ℤ, pos, negsuc, ◌+ℤ◌, ◌-ℤ◌, ◌*ℤ◌, ltb_ℤ, leb_ℤ, eq_ℤ}
use gparted_android.Partition.{Attributes}
use gparted_android.Partition.Basic.{get_sector_length}

pub record Doubles : Type 1 where
  pub Double : Type 0
  pub of_integer : ℤ → Double
  pub add : Double → Double → Double
  pub sub : Double → Double → Double
  pub mul : Double → Double → Double
  pub div : Double → Double → Double
  -- The literals 0.05, 0.02, 0.5 and 0.0.
  pub five_hundredths : Double
  pub two_hundredths : Double
  pub half : Double
  pub nought : Double
  pub at_least : Double → Double → Bool
  -- `static_cast<Sector>`
  pub truncate : Double → ℤ

abbrev pub mebibyte : ℤ
mebibyte = pos 1048576

abbrev pub gibibyte : ℤ
gibibyte = pos 1073741824

abbrev pub min_ℤ : ℤ → ℤ → ℤ
min_ℤ a b = if ltb_ℤ b a then b else a

unfoldable pub sector_usage_known : Attributes → Bool
sector_usage_known a = leb_ℤ (pos 0) a.sectors_used && leb_ℤ (pos 0) a.sectors_unused

unfoldable pub estimated_min_size : Attributes → ℤ
estimated_min_size a =
    if leb_ℤ (pos 0) a.sectors_used
    then a.sectors_used +ℤ min_ℤ a.sectors_unallocated a.significant_threshold
    else negsuc 0

unfoldable pub get_sectors_used : Attributes → ℤ
get_sectors_used a =
    if leb_ℤ (pos 0) a.sectors_used
    then if ltb_ℤ a.sectors_unallocated a.significant_threshold
      then a.sectors_used +ℤ a.sectors_unallocated
      else a.sectors_used
    else negsuc 0

unfoldable pub get_sectors_unused : Attributes → ℤ
get_sectors_unused a = a.sectors_unused

unfoldable pub get_sectors_unallocated : Attributes → ℤ
get_sectors_unallocated a =
    if ltb_ℤ a.sectors_unallocated a.significant_threshold then pos 0 else a.sectors_unallocated

-- The first test of `set_sector_usage`.
abbrev pub sizes_fit : ℤ → ℤ → ℤ → Bool
sizes_fit len fs_size fs_unused =
    leb_ℤ (pos 0) fs_size
    && (leb_ℤ fs_size len && (leb_ℤ (pos 0) fs_unused && leb_ℤ fs_unused fs_size))

module _ (d : Doubles) where
  open d use {of_integer, add, sub, mul, div, five_hundredths, two_hundredths, half, nought}

  -- `Utils::round`
  unfoldable pub round : d.Double → ℤ
  round x = if d.at_least x nought then d.truncate (add x half) else d.truncate (sub x half)

  linear_fraction : ℤ → d.Double
  linear_fraction byte_len =
      add
        (sub (sub five_hundredths two_hundredths) (
          div
            (mul (of_integer (byte_len -ℤ pos 100 *ℤ mebibyte))
              (sub five_hundredths two_hundredths))
            (of_integer (pos 1 *ℤ gibibyte -ℤ pos 100 *ℤ mebibyte))))
        two_hundredths

  significant : ℤ → ℤ → ℤ
  unfolding round linear_fraction
  significant len byte_len =
      if leb_ℤ byte_len (pos 0)
      then pos 1
      else if leb_ℤ byte_len (pos 100 *ℤ mebibyte)
      then round (mul (of_integer len) five_hundredths)
      else if leb_ℤ byte_len (pos 1 *ℤ gibibyte)
      then round (mul (of_integer len) (linear_fraction byte_len))
      else round (mul (of_integer len) two_hundredths)

  unfoldable pub calc_significant_unallocated_sectors : Attributes → ℤ
  unfolding significant
  calc_significant_unallocated_sectors a =
      let len = get_sector_length a in
      let s = significant len (len *ℤ a.sector_size) in if leb_ℤ s (pos 1) then pos 1 else s

  unfoldable pub set_sector_usage : ℤ → ℤ → Attributes → Attributes
  set_sector_usage fs_size fs_unused a =
      let len = get_sector_length a in
      if sizes_fit len fs_size fs_unused
      then record a {
        sectors_used = fs_size -ℤ fs_unused;
        sectors_unused = fs_unused;
        sectors_unallocated = len -ℤ fs_size;
        significant_threshold = calc_significant_unallocated_sectors a;
      }
      else if eq_ℤ fs_size (negsuc 0)
      then if leb_ℤ (pos 0) fs_unused && leb_ℤ fs_unused len
        then record a {
          sectors_used = len -ℤ fs_unused;
          sectors_unused = fs_unused;
          sectors_unallocated = pos 0;
          significant_threshold = pos 1;
        }
        else record a {
          sectors_used = negsuc 0;
          sectors_unused = negsuc 0;
          sectors_unallocated = pos 0;
          significant_threshold = pos 1;
        }
      else a

  -- `Partition::resize`
  unfoldable pub resize_attributes : Attributes → Attributes → Attributes
  unfolding set_sector_usage
  resize_attributes new_size a =
      let fs_size = new_size.sectors_used +ℤ new_size.sectors_unused in
      let fs_unused = fs_size -ℤ new_size.sectors_used in
      set_sector_usage fs_size fs_unused (record a {
        sector_start = new_size.sector_start;
        sector_end = new_size.sector_end;
        alignment = new_size.alignment;
        free_space_before = new_size.free_space_before;
        strict_start = new_size.strict_start;
      })
