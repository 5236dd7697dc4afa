-- ===== src/Entity/RoundTrip.antt =====
-- orm.go: an entity that is serialized and read back.
use trixorm.Shared.{
  ℕ, ◌^◌, ◌<◌, ◌≡◌, ◌≢◌, refl, sym, ap, ◌∙◌, List, [], ◌∷◌, ◌++◌, append-nil, append_assoc, Bool,
  true, false, not, ◌&&◌, ==_self, ==_ne, Text, ok, panic, wrong_hash,
}
use trixorm.Varint.{put_uvarint}
use trixorm.Host.{Host, IsLawful}
use trixorm.Schema.{Kind, TableFields, columns}
use trixorm.Serializer.{Serializer, return, ◌>>=◌, reset, read_all}
use trixorm.Serializer.Reading.{at, Reads, Reads-return, Reads-bind, Reads-map}
use trixorm.Serializer.Laws.{Reads-uinteger, serialize_uinteger-buffer}
use trixorm.Entity.{
  Row, serialize_columns, deserialize_columns, deserialize_column, serialize, deserialize,
}
use trixorm.Entity.Forms.{row_bytes, column_bytes, kept_row, kept, IsStorableRow}
use trixorm.Entity.Columns.{serialize_column-buffer, Reads-column}

unchecked : (disabled : Bool) → (not disabled && false) ≡ false
unchecked true = refl
unchecked false = refl

module _ (h : Host) where
  serialize_columns-buffer :
      (ks : List Kind) (row : Row h ks) (s : Serializer)
      → (serialize_columns h ks row s).buffer ≡ s.buffer ++ row_bytes h ks row
  unfolding serialize_columns
  serialize_columns-buffer [] row s = sym (append-nil s.buffer)
  serialize_columns-buffer (k ∷ ks) (v, row) s =
      serialize_columns-buffer ks row _
      ∙ ap (λ (t : Text). t ++ row_bytes h ks row) (serialize_column-buffer h k v s)
      ∙ append_assoc s.buffer (column_bytes h k v) (row_bytes h ks row)

  -- With an empty buffer, serialize makes the bytes of the hash followed by the form of each column
  -- in order, and it leaves the buffer empty.
  pub serialize-bytes :
      (hash : ℕ) (t : TableFields) (row : Row h (columns t)) (c : ℕ)
      → ((serialize h hash t row (at c [])).0 ≡ put_uvarint hash ++ row_bytes h (columns t) row)
        × ((serialize h hash t row (at c [])).1.buffer ≡ [])
  unfolding serialize read_all
  serialize-bytes hash t row c = (
    serialize_columns-buffer (columns t) row _
        ∙ ap (λ (b : Text). b ++ row_bytes h (columns t) row)
            (serialize_uinteger-buffer hash (at c [])),
    refl,
  )

  module _ (law : IsLawful h) where
    pub Reads-columns :
        (ks : List Kind) (row : Row h ks)
        → IsStorableRow h ks row
        → Reads (deserialize_columns h ks) (row_bytes h ks row) (kept_row h ks row)
    unfolding deserialize_columns
    Reads-columns [] row g = Reads-return tt
    Reads-columns (k ∷ ks) (v, row) (g, gs) =
        Reads-bind (deserialize_column h k) (λ a. deserialize_columns h ks >>= λ r. return (a, r))
          (column_bytes h k v) (row_bytes h ks row) (kept h k v) (kept h k v, kept_row h ks row)
          (Reads-column h law k v g)
          (Reads-map (deserialize_columns h ks) (λ r. (kept h k v, r)) (row_bytes h ks row)
            (kept_row h ks row) (Reads-columns ks row gs))

    -- deserialize of what serialize made of storable fields returns every field as it is kept
    -- (floats rounded, and narrowed where the field is a float32; times to the second, and those not
    -- after 1970 as the zero time, nullable ones as the zero date; an unknown value of an enum as
    -- empty) and leaves nothing over, with any serializers, with or without the check of the hash,
    -- if the hash is below 2^64.
    pub deserialize-serialize :
        (disabled : Bool) (hash : ℕ) (t : TableFields) (row : Row h (columns t)) (c : ℕ)
        (s : Serializer)
        → hash < 2 ^ 64
        → IsStorableRow h (columns t) row
        → (c' : ℕ) × (deserialize h disabled hash t (serialize h hash t row (at c [])).0 s
            ≡ ok (kept_row h (columns t) row, at c' []))
    unfolding deserialize reset
    deserialize-serialize disabled hash t row c s small g =
        let (c1, e1) = Reads-uinteger hash small s.scratch (row_bytes h (columns t) row) in
        let (c2, e2) = Reads-columns (columns t) row g c1 [] in
        (
          c2,
          rw ((serialize-bytes hash t row c).0, e1, ==_self hash, unchecked disabled)
              (rw (append-nil (row_bytes h (columns t) row)) at e2),
        )

  -- A binary that was serialized under another hash below 2^64 is refused with a panic while the
  -- check of the hash is on, whatever the two structures and the fields are.
  pub deserialize-other_hash :
      (hash other : ℕ) (t u : TableFields) (row : Row h (columns u)) (c : ℕ) (s : Serializer)
      → other < 2 ^ 64
      → hash ≢ other
      → deserialize h false hash t (serialize h other u row (at c [])).0 s ≡ panic wrong_hash
  unfolding deserialize reset
  deserialize-other_hash hash other t u row c s small ne =
      let (c1, e1) = Reads-uinteger other small s.scratch (row_bytes h (columns u) row) in
      rw ((serialize-bytes other u row c).0, e1, ==_ne other hash (λ e. ne (sym e)))
