-- ===== src/Tests/Figures.antt =====
-- Runs of the size and usage figures, with numbers of a ten-thousandth for the type `double`.
use gparted_android.Prelude.{◌≡◌, refl, true, some, arith}
use gparted_android.Prelude.Int.{ℤ, pos, ◌+ℤ◌, ◌-ℤ◌, ◌*ℤ◌, ◌/ℤ◌, ◌≤ℤ◌, leb_ℤ}
use gparted_android.Partition.{Attributes, LuksPart, Partition, none_left, fs_luks}
use gparted_android.Partition.Basic.{get_sector_length}
use gparted_android.Partition.Usage
use gparted_android.Partition.Usage.{Doubles, set_sector_usage}
use gparted_android.Partition.UsageLaws.{
  Splits, set_sector_usage-Splits, displayed_total, estimated_min_size_bounds,
}
use gparted_android.Partition.Luks.{
  resize, get_sectors_used, get_sectors_unused, get_sectors_unallocated,
}
use gparted_android.Partition.LuksLaws.{
  LuksSplits, Resizable, luks_displayed_total, resize-LuksSplits,
}
use gparted_android.Tests.{ext4_attributes}

abbrev fixed_point : Doubles
fixed_point = record {
  Double = ℤ;
  of_integer = λ x. x *ℤ pos 10000;
  add = λ x y. x +ℤ y;
  sub = λ x y. x -ℤ y;
  mul = λ x y. x *ℤ y /ℤ pos 10000;
  div = λ x y. x *ℤ pos 10000 /ℤ y;
  five_hundredths = pos 500;
  two_hundredths = pos 200;
  half = pos 5000;
  nought = pos 0;
  at_least = λ x y. leb_ℤ y x;
  truncate = λ x. x /ℤ pos 10000;
}

abbrev a : Attributes
a = ext4_attributes (pos 4096) (pos 8191)

set_sector_usage-Splits_example :
    Splits (get_sector_length a) (set_sector_usage fixed_point (pos 4000) (pos 1000) a)
unfolding get_sector_length ◌+ℤ◌ ◌-ℤ◌
set_sector_usage-Splits_example = set_sector_usage-Splits fixed_point (pos 4000) (pos 1000) a refl

abbrev used : Attributes
used = record a {
  sectors_used = pos 3000;
  sectors_unused = pos 1000;
  sectors_unallocated = pos 96;
  significant_threshold = pos 200;
}

used-Splits : Splits (pos 4096) used
unfolding ◌+ℤ◌
used-Splits = record {
  used = omega arith;
  unused = omega arith;
  unallocated = omega arith;
  threshold = omega arith;
  total = refl;
}

displayed_total_example :
    Usage.get_sectors_used used
      +ℤ Usage.get_sectors_unused used
      +ℤ Usage.get_sectors_unallocated used
    ≡ pos 4096
displayed_total_example = displayed_total (pos 4096) used used-Splits

estimated_min_size_bounds_example :
    (pos 3000 ≤ℤ Usage.estimated_min_size used) × (Usage.estimated_min_size used ≤ℤ pos 4096)
estimated_min_size_bounds_example = estimated_min_size_bounds (pos 4096) used used-Splits

-- A LUKS partition of 4192 sectors: a header of 96, and a mapping of 4096.
abbrev outer : Attributes
outer = record (ext4_attributes (pos 4000) (pos 8191)) {
  busy = true;
  fstype = fs_luks;
  sectors_used = pos 4192;
  sectors_unused = pos 0;
}

abbrev mapping : LuksPart
mapping = record {
  header_size = pos 96;
  encrypted = record used { sector_start = pos 0; sector_end = pos 4095 };
}

abbrev open_luks : Partition
open_luks = record { attributes = outer; luks = some mapping; logical_vector = none_left }

open_luks-LuksSplits : LuksSplits (pos 4192) (pos 4096) outer mapping
unfolding ◌+ℤ◌
open_luks-LuksSplits = record {
  outer = record {
    used = omega arith;
    unused = omega arith;
    unallocated = omega arith;
    threshold = omega arith;
    total = refl;
  };
  full = refl;
  header = omega arith;
  fits = refl;
  inner = record {
    used = omega arith;
    unused = omega arith;
    unallocated = omega arith;
    threshold = omega arith;
    total = refl;
  };
}

luks_displayed_total_example :
    get_sectors_used open_luks +ℤ get_sectors_unused open_luks +ℤ get_sectors_unallocated open_luks
    ≡ pos 4192
luks_displayed_total_example =
    luks_displayed_total (pos 4192) (pos 4096) open_luks mapping refl refl open_luks-LuksSplits

abbrev grown : Attributes
grown = ext4_attributes (pos 4000) (pos 9999)

grown-Resizable : Resizable grown mapping
unfolding ◌+ℤ◌ ◌-ℤ◌
grown-Resizable = record {
  start = omega arith;
  end = omega arith;
  header = omega arith;
  used = omega arith;
  mapping_start = refl;
  room = omega arith;
}

resize-LuksSplits_example :
    let len = pos 9999 -ℤ pos 4000 +ℤ pos 1 in
    let q = resize fixed_point grown open_luks in
    (m : LuksPart) × (q.luks ≡ some m)
    × LuksSplits len (len -ℤ pos 96) q.attributes m
    × (get_sector_length m.encrypted ≡ len -ℤ pos 96)
    × (m.encrypted.sectors_used ≡ pos 3000)
    × (m.header_size ≡ pos 96)
resize-LuksSplits_example =
    resize-LuksSplits fixed_point grown open_luks mapping refl grown-Resizable
