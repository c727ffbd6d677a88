-- ===== src/Partition/Flags.antt =====
-- `compose_partition_flags` and `check_logical_esp_warning` (src/GParted_Core.cc): the flags that go
-- with the file system and the partition table.
use gparted_android.Prelude.{
  ◌≡◌, ◌∙◌, refl, sym, not, if◌then◌else◌, Bool, true, false, ◌&&◌, ◌||◌, &&_true, [], Bool-cases,
  inl, inr, arith,
}
use gparted_android.Prelude.Text.{Text, codes, text_eq}
use gparted_android.Utils.{Gettext}
use gparted_android.Partition.{
  Attributes, FsType, PartitionType, type_is, type_logical, type_extended, fs_fat16, fs_fat32,
  fs_lvm2_pv,
}
use gparted_android.Partition.Members.{is_flag_set, set_only_flag, clear_all_flags}

abbrev is_fat : FsType → Bool
is_fat fs_fat16 = true
is_fat fs_fat32 = true
is_fat _ = false

abbrev is_lvm2_pv : FsType → Bool
is_lvm2_pv fs_lvm2_pv = true
is_lvm2_pv _ = false

unfoldable pub check_logical_esp_warning : Gettext → PartitionType → Bool → Text
check_logical_esp_warning tr t esp_flag =
    if type_is t type_logical && esp_flag
    then tr
        (codes "UEFI firmware does not support booting from a logical EFI System Partition (ESP)")
    else []

unfoldable pub compose_partition_flags : Text → Attributes → Attributes
compose_partition_flags disktype a =
    if is_flag_set (codes "esp") a && is_fat a.fstype
    then set_only_flag (codes "esp") a
    else if is_lvm2_pv a.fstype
    then set_only_flag (codes "lvm") a
    else if text_eq disktype (codes "msdos") && (type_is a.type type_extended || is_fat a.fstype)
    then set_only_flag (codes "lba") a
    else clear_all_flags a

not_fat : (t : FsType) → is_lvm2_pv t ≡ true → is_fat t ≡ false
not_fat t h = ground arith

module _ (disktype : Text) (a : Attributes) where
  abbrev is_esp : Bool
  is_esp = is_flag_set (codes "esp") a && is_fat a.fstype

  abbrev is_lba : Bool
  is_lba = text_eq disktype (codes "msdos") && (type_is a.type type_extended || is_fat a.fstype)

  compose_esp : is_esp ≡ true → compose_partition_flags disktype a ≡ set_only_flag (codes "esp") a
  unfolding compose_partition_flags
  compose_esp e = rw e refl

  compose_lvm :
      is_esp ≡ false
      → is_lvm2_pv a.fstype ≡ true
      → compose_partition_flags disktype a ≡ set_only_flag (codes "lvm") a
  unfolding compose_partition_flags
  compose_lvm e l = rw (e, l) refl

  compose_lba :
      is_esp ≡ false
      → is_lvm2_pv a.fstype ≡ false
      → is_lba ≡ true
      → compose_partition_flags disktype a ≡ set_only_flag (codes "lba") a
  unfolding compose_partition_flags
  compose_lba e l b = rw (e, l, b) refl

  compose_clear :
      is_esp ≡ false
      → is_lvm2_pv a.fstype ≡ false
      → is_lba ≡ false
      → compose_partition_flags disktype a ≡ clear_all_flags a
  unfolding compose_partition_flags
  compose_clear e l b = rw (e, l, b) refl

-- The flags that a partition gets.
abbrev pub composed : Text → Attributes → Text → Bool
composed disktype a flag =
    let esp = is_flag_set (codes "esp") a && is_fat a.fstype in
    let fat_or_extended = type_is a.type type_extended || is_fat a.fstype in
    (text_eq (codes "esp") flag && esp)
    || (text_eq (codes "lvm") flag && is_lvm2_pv a.fstype)
    || (text_eq (codes "lba") flag
        && (text_eq disktype (codes "msdos")
            && (fat_or_extended && (not esp && not (is_lvm2_pv a.fstype)))))

compose_partition_flags_idem :
    (disktype : Text) (a : Attributes)
    → compose_partition_flags disktype (compose_partition_flags disktype a)
      ≡ compose_partition_flags disktype a
unfolding is_flag_set set_only_flag clear_all_flags text_eq
compose_partition_flags_idem disktype a = elim (Bool-cases (is_esp disktype a)) [
  | inl e ↦ rw (compose_esp disktype a e) (compose_esp disktype _ (&&_true _ (is_fat a.fstype) e).1)
  | inr e ↦ elim (Bool-cases (is_lvm2_pv a.fstype)) [
    | inl l ↦ rw (compose_lvm disktype a e l) (compose_lvm disktype _ refl l)
    | inr l ↦ elim (Bool-cases (is_lba disktype a)) [
      | inl b ↦ rw (compose_lba disktype a e l b) (compose_lba disktype _ refl l b)
      | inr b ↦ rw (compose_clear disktype a e l b) (compose_clear disktype _ refl l b)
    ]
  ]
]

only_flag : (f flag : Text) (a : Attributes) → is_flag_set flag (set_only_flag f a) ≡ text_eq f flag
unfolding is_flag_set set_only_flag
only_flag f flag a = elim (Bool-cases (text_eq f flag)) [ inl h ↦ rw h refl | inr h ↦ rw h refl ]

no_flag : (flag : Text) (a : Attributes) → is_flag_set flag (clear_all_flags a) ≡ false
unfolding is_flag_set clear_all_flags
no_flag flag a = refl

esp_only :
    (x y z e l b c : Bool)
    → e ≡ true
    → l ≡ false
    → ((x && e) || (y && l) || (z && (b && (c && (not e && not l))))) ≡ x
esp_only x y z e l b c h k = ground (arith, h, k)

lvm_only :
    (x y z e l b c : Bool)
    → e ≡ false
    → l ≡ true
    → ((x && e) || (y && l) || (z && (b && (c && (not e && not l))))) ≡ y
lvm_only x y z e l b c h k = ground (arith, h, k)

lba_only :
    (x y z e l b c : Bool)
    → e ≡ false
    → l ≡ false
    → (b && c) ≡ true
    → ((x && e) || (y && l) || (z && (b && (c && (not e && not l))))) ≡ z
lba_only x y z e l b c h k m = ground (arith, h, k, m)

none_of_them :
    (x y z e l b c : Bool)
    → e ≡ false
    → l ≡ false
    → (b && c) ≡ false
    → ((x && e) || (y && l) || (z && (b && (c && (not e && not l))))) ≡ false
none_of_them x y z e l b c h k m = ground (arith, h, k, m)

no_lvm : (t : FsType) (e : Bool) → (e && is_fat t) ≡ true → is_lvm2_pv t ≡ false
no_lvm t e h = ground (arith, h)

which_flags :
    (disktype : Text) (a : Attributes) (flag : Text)
    → is_flag_set flag (compose_partition_flags disktype a) ≡ composed disktype a flag
which_flags disktype a flag = elim (Bool-cases (is_esp disktype a)) [
  | inl e ↦ rw (compose_esp disktype a e) (
      only_flag (codes "esp") flag a
      ∙ sym (
          esp_only _ _ (text_eq (codes "lba") flag) _ _ (text_eq disktype (codes "msdos"))
            (type_is a.type type_extended || is_fat a.fstype) e
            (no_lvm a.fstype (is_flag_set (codes "esp") a) e)))
  | inr e ↦ elim (Bool-cases (is_lvm2_pv a.fstype)) [
    | inl l ↦ rw (compose_lvm disktype a e l) (
        only_flag (codes "lvm") flag a
        ∙ sym (
            lvm_only _ _ (text_eq (codes "lba") flag) _ _ (text_eq disktype (codes "msdos"))
              (type_is a.type type_extended || is_fat a.fstype) e l))
    | inr l ↦ elim (Bool-cases (is_lba disktype a)) [
      | inl b ↦ rw (compose_lba disktype a e l b) (
          only_flag (codes "lba") flag a
          ∙ sym (
              lba_only _ _ (text_eq (codes "lba") flag) _ _ (text_eq disktype (codes "msdos"))
                (type_is a.type type_extended || is_fat a.fstype) e l b))
      | inr b ↦ rw (compose_clear disktype a e l b) (
          no_flag flag a
          ∙ sym (
              none_of_them _ _ (text_eq (codes "lba") flag) _ _ (text_eq disktype (codes "msdos"))
                (type_is a.type type_extended || is_fat a.fstype) e l b))
    ]
  ]
]

-- Of the flags of a partition, esp stays on a FAT file system that has it, lvm is set exactly on an
-- LVM2 physical volume, and lba exactly on an msdos table, on an extended partition or a FAT file
-- system, where neither of the two is; no other flag stays. A second time changes nothing.
pub compose_partition_flags_lem :
    (disktype : Text) (a : Attributes) (flag : Text)
    → (is_flag_set flag (compose_partition_flags disktype a) ≡ composed disktype a flag)
      × (compose_partition_flags disktype (compose_partition_flags disktype a)
          ≡ compose_partition_flags disktype a)
compose_partition_flags_lem disktype a flag =
    (which_flags disktype a flag, compose_partition_flags_idem disktype a)
