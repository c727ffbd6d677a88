-- ===== src/Adb/Laws.antt =====
-- What the operations ask of the device, and on which partition.
use gparted_android.Prelude.{
  All, ◌≡◌, ◌⊎◌, refl, ap, ◌∙◌, Bool, true, false, not, none, some, List, [], ◌∷◌, ◌++◌, Bool-cases,
  inl, inr, if◌then◌else◌,
}
use gparted_android.Prelude.Int.{ℤ, pos, ltb_ℤ}
use gparted_android.Prelude.Text.{Text, codes, is_prefix, text_eq}
use gparted_android.Utils.{num_to_str}
use gparted_android.Device.{Device}
use gparted_android.Operation.{deletion}
use gparted_android.Partition.{Attributes, Partition, stat_real}
use gparted_android.Adb.{
  create as create_call, Phone, History, shell, driver, DriverCall, pure, ◌>>=◌, branch,
}
use gparted_android.Adb.Command.{mkpart_command, print_command, rm_command, parted, contains}
use gparted_android.Adb.Calibrate.{
  calibrate_partition, is_unnumbered, with_number, first_number, lines, first_token, atoi,
}
use gparted_android.Adb.Apply.{
  part_type, fs_name, apply_operation_to_disk, create, create_partition, create_filesystem,
  fill_created, made, holds_nothing, is_unallocated, is_unknown,
}

-- The calls of drivers in a history, the latest first.
abbrev pub driver_calls : History → List DriverCall
driver_calls [] = []
driver_calls (shell command output ∷ h) = driver_calls h
driver_calls (driver c b ∷ h) = c ∷ driver_calls h

-- The commands in a history, the latest first.
abbrev pub commands : History → List Text
commands [] = []
commands (shell command output ∷ h) = command ∷ commands h
commands (driver c b ∷ h) = commands h

-- A created partition, as the code has it: without its number.
abbrev pub made_partition : Attributes → Attributes
made_partition p = record p {
  partition_number = pos 0;
  path = p.device_path ++ num_to_str (pos 0);
  status = stat_real;
}

abbrev pub mkpart_of : Attributes → Text
mkpart_of p =
    mkpart_command p.device_path (part_type p.type) (fs_name p.fstype) p.sector_start p.sector_end

-- A line below the head that shows no partition: it is empty, or begins with no number above 0.
abbrev pub IsNoRow : Text → Type 0
IsNoRow l =
    (is_prefix (codes "Number") l ≡ false)
    × ((text_eq l [] ≡ true) ⊎ (ltb_ℤ (pos 0) (atoi (first_token l)) ≡ false))

-- The row of the partition with the number `n`.
pub record IsRow (n : ℤ) (l : Text) : Type 0 where
  pub not_head : is_prefix (codes "Number") l ≡ false
  pub filled : text_eq l [] ≡ false
  pub number : atoi (first_token l) ≡ n
  pub positive : ltb_ℤ (pos 0) n ≡ true

first_number-between :
    (n : ℤ) (between rest : List Text) (row : Text)
    → All IsNoRow between
    → IsRow n row
    → first_number true (between ++ (row ∷ rest)) ≡ some n
unfolding first_number
first_number-between n [] rest row i r = rw (r.not_head, r.filled, r.number, r.positive) refl
first_number-between n (l ∷ ls) rest row i r = elim (i.0.1) [
  | inl t ↦ rw (i.0.0, t) (first_number-between n ls rest row i.1 r)
  | inr t ↦ elim (Bool-cases (text_eq l [])) [
    | inl u ↦ rw (i.0.0, u) (first_number-between n ls rest row i.1 r)
    | inr u ↦ rw (i.0.0, u, t) (first_number-between n ls rest row i.1 r)
  ]
]

first_number-below :
    (n : ℤ) (before between rest : List Text) (head row : Text)
    → All (λ l. is_prefix (codes "Number") l ≡ false) before
    → is_prefix (codes "Number") head ≡ true
    → All IsNoRow between
    → IsRow n row
    → first_number false (before ++ (head ∷ (between ++ (row ∷ rest)))) ≡ some n
unfolding first_number
first_number-below n [] between rest head row b k i r =
    rw (k) (first_number-between n between rest row i r)
first_number-below n (l ∷ ls) between rest head row b k i r =
    rw (b.0) (first_number-below n ls between rest head row b.1 k i r)

module _ (w : Phone) where
  calibrate_unnumbered :
      (p : Attributes) (h : History) (n : ℤ)
      → is_unnumbered p ≡ true
      → first_number false (lines (w.output h (print_command p.device_path))) ≡ some n
      → calibrate_partition w p h ≡ (
        with_number p (some n),
        shell (print_command p.device_path) (w.output h (print_command p.device_path)) ∷ h,
      )
  unfolding calibrate_partition
  calibrate_unnumbered p h n e f =
      branch_true (is_unnumbered p) e
      ∙ ap
          (λ o. (
            with_number p o,
            shell (print_command p.device_path) (w.output h (print_command p.device_path)) ∷ h,
          ))
          f
    where
      branch_true :
          (b : Bool)
          → b ≡ true
          → branch b
              (λ g. (
                with_number p
                    (first_number false (lines (w.output g (print_command p.device_path)))),
                shell (print_command p.device_path) (w.output g (print_command p.device_path)) ∷ g,
              ))
              (pure p)
              h
            ≡ (
              with_number p (first_number false (lines (w.output h (print_command p.device_path)))),
              shell (print_command p.device_path) (w.output h (print_command p.device_path)) ∷ h,
            )
      branch_true true e = refl
      branch_true false e = cc e

  -- A pending delete of a partition that has no number or no path yet removes the partition of the
  -- first row with a number below the head of the table that parted prints, whatever else the table
  -- holds.
  pub delete_unnumbered :
      (d : Device) (p : Partition) (h : History) (n : ℤ) (before between rest : List Text)
      (head row : Text)
      → is_unnumbered p.attributes ≡ true
      → lines (w.output h (print_command p.device_path))
        ≡ before ++ (head ∷ (between ++ (row ∷ rest)))
      → All (λ l. is_prefix (codes "Number") l ≡ false) before
      → is_prefix (codes "Number") head ≡ true
      → All IsNoRow between
      → IsRow n row
      → commands (apply_operation_to_disk w (deletion d p) h).1
        ≡ rm_command p.device_path n ∷ print_command p.device_path ∷ commands h
  unfolding apply_operation_to_disk parted
  delete_unnumbered d p h n before between rest head row e table b k i r =
      ap (λ x. commands (parted w (rm_command x.0.device_path x.0.partition_number) x.1).1)
        (calibrate_unnumbered p.attributes h n e (
          ap (first_number false) table
          ∙ first_number-below n before between rest head row b k i r))

  create_by :
      (p : Attributes) (h : History) (b : Bool)
      → holds_nothing p.fstype ≡ false
      → is_unknown p.fstype ≡ false
      → is_unallocated p.fstype ≡ false
      → w.has_object p.fstype ≡ true
      → driver_calls
          ((branch b (made w p >>= λ q. pure (some q)) (pure none) >>= fill_created w) h).1
        ≡ (if b then create_call (made_partition p) ∷ driver_calls h else driver_calls h)
  unfolding create_filesystem
  create_by p h true e f g k = rw (e, f, g, k, e) refl
  create_by p h false e f g k = refl

  -- Creating a partition with a file system asks its driver to make the file system on the path of the
  -- device followed by a zero, whichever partition was made, if parted reports no error; and asks no
  -- driver if it does.
  pub driver_calls-create :
      (p : Attributes) (h : History)
      → holds_nothing p.fstype ≡ false
      → is_unknown p.fstype ≡ false
      → is_unallocated p.fstype ≡ false
      → w.has_object p.fstype ≡ true
      → driver_calls (create w p h).1 ≡ (
          if contains (codes "Error:") (w.output h (mkpart_of p))
          then driver_calls h
          else create_call (made_partition p) ∷ driver_calls h)
  unfolding create create_partition parted
  driver_calls-create p h e f g k =
      create_by p (shell (mkpart_of p) (w.output h (mkpart_of p)) ∷ h)
        (not (contains (codes "Error:") (w.output h (mkpart_of p)))) e f g k
      ∙ if_not (contains (codes "Error:") (w.output h (mkpart_of p)))
    where
      if_not :
          (b : Bool)
          → (if not b then create_call (made_partition p) ∷ driver_calls h else driver_calls h)
            ≡ (if b then driver_calls h else create_call (made_partition p) ∷ driver_calls h)
      if_not true = refl
      if_not false = refl
