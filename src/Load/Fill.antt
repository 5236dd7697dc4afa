-- ===== src/Load/Fill.antt =====
-- search.go: fillFromBinary and fillFromDBRow on an entity that was saved.
use trixorm.Shared.{ℕ, ◌^◌, ◌<◌, ◌≡◌, sym, Bool, true, Text, ok, List, [], ◌++◌}
use trixorm.Int64.{ℤ}
use trixorm.Varint.{put_uvarint}
use trixorm.Host.{Host, IsLawful}
use trixorm.Schema.{columns}
use trixorm.Serializer.{Serializer}
use trixorm.Serializer.Reading.{at}
use trixorm.Entity.{Row, serialize}
use trixorm.Entity.Forms.{row_bytes, kept_row, IsStorableRow}
use trixorm.Entity.RoundTrip.{serialize-bytes, deserialize-serialize}
use trixorm.Loading.{ScannedRow}
use trixorm.Loading.Saved.{IsZone, RepresentsRow, deserialize_from_db-serialize}
use trixorm.Builder.Build.{TableSchema, Orm}
use trixorm.Load.{get_id, fill_from_binary, fill_from_db_row}

module _ (h : Host) (s : TableSchema) where
  -- The binary of an entity with these fields.
  abbrev pub binary_of : Row h (columns s.fields) → Text
  binary_of row = put_uvarint s.structure_hash ++ row_bytes h (columns s.fields) row

  -- The entity after it was loaded.
  abbrev pub loaded_with : Row h (columns s.fields) → Orm h s → Orm h s
  loaded_with row orm = record orm {
    in_db = true;
    loaded = true;
    binary = binary_of row;
    entity_id = get_id h (columns s.fields) (kept_row h (columns s.fields) row);
    elem = kept_row h (columns s.fields) row;
  }

module _ (h : Host) (s : TableSchema) (disabled : Bool) (law : IsLawful h) where
  pub fill_from_binary_lem :
      (row : Row h (columns s.fields)) (orm : Orm h s) (z : Serializer)
      → s.structure_hash < 2 ^ 64
      → IsStorableRow h (columns s.fields) row
      → (c : ℕ) × (fill_from_binary h s disabled (binary_of h s row) orm z
          ≡ ok (loaded_with h s row orm, at c []))
  unfolding fill_from_binary
  fill_from_binary_lem row orm z small g =
      let (c, e) = deserialize-serialize h law disabled s.structure_hash s.fields row 0 z small g in
      (c, rw (sym (serialize-bytes h s.structure_hash s.fields row 0).0, e))

  pub fill_from_db_row_lem :
      (unmarshal_ids : Text → List ℕ) (offset : ℤ) (scanned : ScannedRow h (columns s.fields))
      (row : Row h (columns s.fields)) (orm : Orm h s) (c0 : ℕ)
      → s.structure_hash < 2 ^ 64
      → IsZone offset
      → IsStorableRow h (columns s.fields) row
      → RepresentsRow h unmarshal_ids offset (columns s.fields) scanned row
      → (c : ℕ) × (fill_from_db_row h s disabled unmarshal_ids offset scanned orm (at c0 [])
          ≡ ok (loaded_with h s row orm, at c []))
  unfolding fill_from_db_row
  fill_from_db_row_lem unmarshal_ids offset scanned row orm c0 small zone g r =
      let (c, e) =
        fill_from_binary_lem row orm (serialize h s.structure_hash s.fields row (at c0 [])).1 small
          g in
      (
        c,
        rw
            (
              deserialize_from_db-serialize h unmarshal_ids offset s.structure_hash s.fields scanned
                  row (at c0 []) zone r,
              (serialize-bytes h s.structure_hash s.fields row c0).0,
            )
            e,
      )
