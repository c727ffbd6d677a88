-- ===== src/Partition/LuksLaws.antt =====
-- How the usage of an open LUKS partition is composed (the drawing in src/PartitionLUKS.cc).
use gparted_android.Prelude.{◌≡◌, ◌∙◌, refl, arith, true, some, Bool-cases, inl, inr}
use gparted_android.Prelude.Int.{ℤ, pos, ◌+ℤ◌, ◌-ℤ◌, ◌≤ℤ◌, int_laws, le→leb_ℤ, ltb_ℤ, parts_of_eq}
use gparted_android.Partition.{Attributes, LuksPart, Partition}
use gparted_android.Partition.Basic.{get_sector_length}
use gparted_android.Partition.Usage
use gparted_android.Partition.Usage.{Doubles, set_sector_usage, sizes_fit, resize_attributes}
use gparted_android.Partition.UsageLaws.{Splits, set_sector_usage-Splits}
use gparted_android.Partition.Luks.{
  get_sectors_used, get_sectors_unused, get_sectors_unallocated, resize, resize_outer,
  resize_mapping, total_unallocated,
}

-- The header and the mapping fill what LUKS uses, and the file system splits the mapping.
pub record LuksSplits (len mapping : ℤ) (a : Attributes) (l : LuksPart) : Type 0 where
  pub outer : Splits len a
  pub full : a.sectors_unused ≡ pos 0
  pub header : pos 0 ≤ℤ l.header_size
  pub fits : l.header_size +ℤ mapping ≡ a.sectors_used
  pub inner : Splits mapping l.encrypted

-- The figures shown for an open LUKS partition that is in use add up to its length, if the figures of the
-- partition and of its file system are known and fit the length.
pub luks_displayed_total :
    (len mapping : ℤ) (p : Partition) (l : LuksPart)
    → p.luks ≡ some l
    → p.busy ≡ true
    → LuksSplits len mapping p.attributes l
    → get_sectors_used p +ℤ get_sectors_unused p +ℤ get_sectors_unallocated p ≡ len
unfolding get_sectors_used get_sectors_unused get_sectors_unallocated Usage.get_sectors_unused
luks_displayed_total len mapping p l e b s =
    rw
      (
        e,
        b,
        le→leb_ℤ _ _ s.outer.used,
        le→leb_ℤ _ _ s.inner.used,
        get_sectors_used,
        get_sectors_unused,
        get_sectors_unallocated,
      )
      (elim (Bool-cases (ltb_ℤ (total_unallocated p.attributes l) p.significant_threshold)) [
        | inl c ↦ rw c (
            omega (
              int_laws,
              parts_of_eq s.full,
              parts_of_eq s.fits,
              parts_of_eq s.inner.total,
              parts_of_eq s.outer.total,
            ))
        | inr c ↦ rw c (
            omega (
              int_laws,
              parts_of_eq s.full,
              parts_of_eq s.fits,
              parts_of_eq s.inner.total,
              parts_of_eq s.outer.total,
            ))
      ])

-- What a resize of an open LUKS partition to `new_size` needs: the new end is not before the start,
-- and the header and the used part of the file system fit.
pub record Resizable (new_size : Attributes) (l : LuksPart) : Type 0 where
  pub start : pos 0 ≤ℤ new_size.sector_start
  pub end : pos 0 ≤ℤ new_size.sector_end
  pub header : pos 0 ≤ℤ l.header_size
  pub used : pos 0 ≤ℤ l.encrypted.sectors_used
  pub mapping_start : l.encrypted.sector_start ≡ pos 0
  pub room :
      l.header_size +ℤ l.encrypted.sectors_used +ℤ pos 1
      ≤ℤ new_size.sector_end -ℤ new_size.sector_start +ℤ pos 1

module _ (d : Doubles) where
  bounds-resize_attributes :
      (new_size a : Attributes)
      → ((resize_attributes d new_size a).sector_start ≡ new_size.sector_start)
        × ((resize_attributes d new_size a).sector_end ≡ new_size.sector_end)
  unfolding resize_attributes
  bounds-resize_attributes new_size a = ground arith

  length-resize_attributes :
      (new_size a : Attributes)
      → pos 0 ≤ℤ new_size.sector_start
      → pos 0 ≤ℤ new_size.sector_end
      → get_sector_length (resize_attributes d new_size a)
        ≡ new_size.sector_end -ℤ new_size.sector_start +ℤ pos 1
  unfolding get_sector_length
  length-resize_attributes new_size a h k =
      let b = bounds-resize_attributes new_size a in
      rw (b.0, b.1, le→leb_ℤ _ _ h, le→leb_ℤ _ _ k) refl

  fits : (len unused : ℤ) → pos 0 ≤ℤ unused → unused ≤ℤ len → sizes_fit len len unused ≡ true
  fits len unused h k = ground arith

  used-set_sector_usage :
      (fs_size unused : ℤ) (a : Attributes)
      → sizes_fit (get_sector_length a) fs_size unused ≡ true
      → ((set_sector_usage d fs_size unused a).sectors_used ≡ fs_size -ℤ unused)
        × ((set_sector_usage d fs_size unused a).sectors_unused ≡ unused)
        × (get_sector_length (set_sector_usage d fs_size unused a) ≡ get_sector_length a)
  unfolding set_sector_usage get_sector_length
  used-set_sector_usage fs_size unused a h = rw h (refl, refl, refl)

  -- A file system as long as its partition.
  whole :
      (len unused : ℤ) (a : Attributes)
      → get_sector_length a ≡ len
      → pos 0 ≤ℤ unused
      → unused ≤ℤ len
      → Splits len (set_sector_usage d len unused a)
        × ((set_sector_usage d len unused a).sectors_used ≡ len -ℤ unused)
        × ((set_sector_usage d len unused a).sectors_unused ≡ unused)
        × (get_sector_length (set_sector_usage d len unused a) ≡ len)
  whole len unused a e h k =
      let f : sizes_fit (get_sector_length a) len unused ≡ true = rw e (fits len unused h k) in
      let u = used-set_sector_usage len unused a f in
      (rw e at (set_sector_usage-Splits d len unused a f), u.0, u.1, u.2 ∙ e)

  module _ (new_size : Attributes) (a : Attributes) (l : LuksPart) (r : Resizable new_size l) where
    abbrev new_length : ℤ
    new_length = new_size.sector_end -ℤ new_size.sector_start +ℤ pos 1

    abbrev new_mapping : ℤ
    new_mapping = new_length -ℤ l.header_size

    resize_outer_lem :
        Splits new_length (resize_outer d new_size a)
        × ((resize_outer d new_size a).sectors_used ≡ new_length -ℤ pos 0)
        × ((resize_outer d new_size a).sectors_unused ≡ pos 0)
        × (get_sector_length (resize_outer d new_size a) ≡ new_length)
    unfolding resize_outer
    resize_outer_lem =
        let e = length-resize_attributes new_size a r.start r.end in
        rw e
          (whole new_length (pos 0) _ e (omega arith) (omega (int_laws, r.room, r.header, r.used)))

    mapping_length :
        get_sector_length (record (l.encrypted) { sector_end = new_mapping -ℤ pos 1 }) ≡ new_mapping
    unfolding get_sector_length
    mapping_length =
        rw
          (
            r.mapping_start,
            le→leb_ℤ (pos 0) (new_mapping -ℤ pos 1) (omega (int_laws, r.room, r.header, r.used)),
          )
          (omega int_laws)

    resize_mapping_lem :
        let e = (resize_mapping d new_length l).encrypted in
        Splits new_mapping e
        × (e.sectors_used ≡ l.encrypted.sectors_used)
        × (get_sector_length e ≡ new_mapping)
    unfolding resize_mapping
    resize_mapping_lem =
        let w =
          whole new_mapping (new_mapping -ℤ l.encrypted.sectors_used) _ mapping_length
            (omega (int_laws, r.room, r.header, r.used))
            (omega (int_laws, r.room, r.header, r.used)) in
        (w.0, w.1 ∙ omega int_laws, w.3)

  resize_of_luks :
      (new_size : Attributes) (p : Partition) (l : LuksPart)
      → p.luks ≡ some l
      → Resizable new_size l
      → resize d new_size p ≡ record {
        attributes = resize_outer d new_size p.attributes;
        luks = some (resize_mapping d (new_size.sector_end -ℤ new_size.sector_start +ℤ pos 1) l);
        logical_vector = p.logical_vector;
      }
  unfolding resize
  resize_of_luks new_size p l e r =
      let o = resize_outer_lem new_size p.attributes l r in rw (e, resize, o.3) refl

  -- A resize of a LUKS partition gives the header, its file system and the partition new figures
  -- that fit together: the mapping takes what the header leaves of the new length, the file system
  -- splits it, and the used part of the file system stays as it was. The mapping is known and starts
  -- at 0, the used part is known, and header, used part and a sector more fit the new length.
  pub resize-LuksSplits :
      (new_size : Attributes) (p : Partition) (l : LuksPart)
      → p.luks ≡ some l
      → Resizable new_size l
      → let len = new_size.sector_end -ℤ new_size.sector_start +ℤ pos 1 in
        let q = resize d new_size p in
        (m : LuksPart) × (q.luks ≡ some m)
        × LuksSplits len (len -ℤ l.header_size) q.attributes m
        × (get_sector_length m.encrypted ≡ len -ℤ l.header_size)
        × (m.encrypted.sectors_used ≡ l.encrypted.sectors_used)
        × (m.header_size ≡ l.header_size)
  unfolding resize_mapping
  resize-LuksSplits new_size p l e r =
      let o = resize_outer_lem new_size p.attributes l r in
      let m = resize_mapping_lem new_size p.attributes l r in
      let len = new_size.sector_end -ℤ new_size.sector_start +ℤ pos 1 in
      rw (resize_of_luks new_size p l e r) (
        (
          resize_mapping d len l,
          refl,
          record {
            outer = o.0;
            full = o.2;
            header = r.header;
            fits = omega (int_laws, parts_of_eq o.1);
            inner = m.0;
          },
          m.2,
          m.1,
          refl,
        ))
