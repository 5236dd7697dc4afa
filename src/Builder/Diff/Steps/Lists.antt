-- ===== src/Builder/Diff/Steps/Lists.antt =====
-- bind_builder.go: the steps of enums, sets and lists of references.
use trixorm.Shared.{
  ℕ, suc, ◌^◌, ◌<◌, ◌==◌, ◌≡◌, refl, sym, ap, ◌∙◌, lt→ltb, Bool, true, false, if◌then◌else◌, Text,
  text_eq, ok, ◌++◌, List, [], ◌∷◌, append_assoc, append-nil, arith, map, length, All, Bool-cases,
  inl, inr, ==_ne, ==→eq, ◌⊎◌,
}
use mathlib.Core.List.{map-id}
use mathlib.Core.Path.{subst}
use trixorm.Host.{Host}
use trixorm.Varint.{put_uvarint}
use trixorm.Enum.{Enum, has, index, field_before}
use trixorm.Enum.Laws.{IsEnum, index_known, index_unknown, field_before-index}
use trixorm.Schema.{Kind}
use trixorm.Serializer.{deserialize_uinteger}
use trixorm.Serializer.Reading.{at, Reads}
use trixorm.Serializer.Laws.{Reads-uinteger}
use trixorm.Maps.{assign-assign}
use trixorm.Entity.{read_times}
use trixorm.Entity.Forms.{uintegers_bytes, enum_code, IsStorable}
use trixorm.Entity.Columns.{Reads-each}
use trixorm.Entity.Columns.Pieces.{Reads-times}
use trixorm.Json.{ids_text}
use trixorm.Sql.{quote}
use trixorm.Builder.{nil, Builder, BindValue, str, next, put_bind, put_current}
use trixorm.Builder.Texts.{
  set_enum, old_enum, set_names, old_names, set_ids, build_enum, build_set, build_refs_many, join,
  names_of, all_known, is_blank, encoded_ids, text_or_empty,
}
use trixorm.Builder.Diff.{write, written, blank_sql}
use trixorm.Builder.Diff.Steps.{Settles}

-- What a stored code says of the old value: blank for 0, else its name.
enum_code_cases :
    (e : Enum) (u : Text)
    → IsEnum e
    → length e.fields < 2 ^ 64
    → (enum_code e u < 2 ^ 64)
      × (((enum_code e u == 0) ≡ true)
          ⊎ (((enum_code e u == 0) ≡ false) × (field_before e (enum_code e u) ≡ ok u)))
enum_code_cases e [] w n = (omega arith, inl refl)
enum_code_cases e (b ∷ u) w n = elim (Bool-cases (has e (b ∷ u))) [
  | inl k ↦
      let known = index_known e (b ∷ u) w k in
      (
        omega (arith, known),
        inr (==_ne _ 0 (omega (arith, known)), field_before-index e (b ∷ u) w k),
      )
  | inr k ↦ let unknown = index_unknown e (b ∷ u) k in (omega (arith, unknown), inl (rw unknown))
]

names_of-map_index :
    (e : Enum) (us : List Text)
    → IsEnum e
    → All (λ v. has e v ≡ true) us
    → names_of e (map (index e) us) ≡ ok us
unfolding names_of
names_of-map_index e [] w g = refl
names_of-map_index e (u ∷ us) w (k, g) =
    rw (field_before-index e u w k, names_of-map_index e us w g)

-- The positions of known names are numbers that are read back.
Reads-positions :
    (e : Enum) (us : List Text)
    → IsEnum e
    → length e.fields < 2 ^ 64
    → All (λ v. has e v ≡ true) us
    → All (λ i. Reads deserialize_uinteger (put_uvarint i) i) (map (index e) us)
Reads-positions e [] w n g = tt
Reads-positions e (u ∷ us) w n (k, g) =
    (Reads-uinteger _ (omega (arith, index_known e u w k)), Reads-positions e us w n g)

length-map_index : (e : Enum) (us : List Text) → length (map (index e) us) ≡ length us
length-map_index e [] = refl
length-map_index e (u ∷ us) = ap suc (length-map_index e us)

Reads-numbers :
    (is : List ℕ)
    → All (λ i. Reads deserialize_uinteger (put_uvarint i) i) is
    → Reads (read_times (length is) deserialize_uinteger) (uintegers_bytes is) is
Reads-numbers is g =
    subst (λ l. Reads (read_times (length is) deserialize_uinteger) (uintegers_bytes l) is)
      (map-id is) (Reads-times deserialize_uinteger (λ n. n) is g)

or_else :
    {B : Type 0} (same : Bool) (a : B) {x y : B}
    → x ≡ y
    → (if same then a else x) ≡ (if same then a else y)
or_else same a e = ap (λ z. if same then a else z) e

text_eq-blank : (s : Text) → text_eq [] s ≡ is_blank s
unfolding text_eq
text_eq-blank [] = refl
text_eq-blank (c ∷ s) = refl

blank→eq : (s : Text) → is_blank s ≡ true → s ≡ []
blank→eq [] e = refl
blank→eq (c ∷ s) e = cc

module _ {h : Host} where
  old_enum-code :
      (e : Enum) (u name : Text) (b : Builder h)
      → IsEnum e
      → length e.fields < 2 ^ 64
      → old_enum e (enum_code e u) name b
        ≡ ok (put_current name (if enum_code e u == 0 then nil else str u) b)
  unfolding old_enum put_current
  old_enum-code e u name b w n = elim (Bool-cases b.has_current) [
    | inr off ↦ rw off
    | inl on ↦ elim (enum_code_cases e u w n).1 [
      | inl zero_code ↦ rw (on, zero_code)
      | inr (other, found) ↦ rw (on, other, found)
    ]
  ]

  set_enum-written :
      (e : Enum) (r : Bool) (i : ℕ) (v name : Text) (b : Builder h)
      → b.in_db ≡ true
      → set_enum e r name v b ≡ write (written h (Kind.enumeration e r) true i v) name b
  unfolding set_enum
  set_enum-written e true i [] name b d = rw d
  set_enum-written e false i [] name b d = refl
  set_enum-written e r i (c ∷ v) name b d = elim (Bool-cases (has e (c ∷ v))) [
    | inl k ↦ rw k
    | inr k ↦ rw k
  ]

  pub enum-Settles :
      (e : Enum) (r : Bool) (u v : Text)
      → IsEnum e
      → length e.fields < 2 ^ 64
      → Settles {h = h} (Kind.enumeration e r) u v (build_enum e r v)
  unfolding build_enum next put_current
  enum-Settles e r u v w n b c rest =
      let small = (enum_code_cases e u w n).0 in
      let (c', q) = Reads-uinteger (enum_code e u) small c rest in
      (
        c',
        rw (q, old_enum-code e u _ _ w n)
            (or_else (enum_code e u == index e v) _ (set_enum-written e r b.entity_id v _ _ refl)),
      )

  names_noted :
      (e : Enum) (us : List Text) (name : Text) (b : Builder h)
      → IsEnum e
      → All (λ v. has e v ≡ true) us
      → old_names e (map (index e) us) name b ≡ ok (put_current name (str (join us)) b)
  unfolding old_names put_current
  names_noted e us name b w g = elim (Bool-cases b.has_current) [
    | inl on ↦ rw (on, names_of-map_index e us w g)
    | inr off ↦ rw off
  ]

  put_current_twice :
      (name : Text) (x y : BindValue h) (b : Builder h)
      → put_current name y (put_current name x b) ≡ put_current name y b
  unfolding put_current
  put_current_twice name x y b = elim (Bool-cases b.has_current) [
    | inl on ↦ rw (on, assign-assign name x y b.current)
    | inr off ↦ rw off
  ]

  set_names-written :
      (e : Enum) (r : Bool) (i : ℕ) (vs : List Text) (name : Text) (b : Builder h)
      → ok (set_names r name vs b) ≡ write (written h (Kind.set e r) true i vs) name b
  unfolding set_names
  set_names-written e true i [] name b = refl
  set_names-written e false i [] name b = refl
  set_names-written e r i (v ∷ vs) name b = refl

  set_empty : (e : Enum) (r : Bool) → Settles {h = h} (Kind.set e r) [] [] (build_set e r [])
  unfolding build_set next put_current all_known
  set_empty e r b c rest =
      let (c1, q) = Reads-uinteger 0 (omega arith) c rest in
      (c1, rw (append-nil (put_uvarint 0), q))

  -- Lists of other lengths: the old positions are read over.
  set_differs :
      (e : Enum) (r : Bool) (us vs : List Text)
      → IsStorable h (Kind.set e r) us
      → (length vs == length us) ≡ false
      → Settles {h = h} (Kind.set e r) us vs (build_set e r vs)
  unfolding build_set next put_current
  set_differs e r us vs (w, n, l, g) d b c rest =
      let (c1, q) =
        Reads-uinteger (length us) (omega arith) c (uintegers_bytes (map (index e) us) ++ rest) in
      let (c2, p) = Reads-numbers (map (index e) us) (Reads-positions e us w n g) c1 rest in
      let p' = rw (length-map_index e us) at p in
      (
        c2,
        rw
            (
              append_assoc (put_uvarint (length us)) (uintegers_bytes (map (index e) us)) rest,
              q,
              d,
              lt→ltb (length us) (2 ^ 63) l,
              p',
            )
            (set_names-written e r b.entity_id vs _ _),
      )

  -- Lists of one length: the old positions are compared, and noted as names.
  set_compares :
      (e : Enum) (r : Bool) (u v : Text) (us vs : List Text)
      → IsStorable h (Kind.set e r) (u ∷ us)
      → (length (v ∷ vs) == length (u ∷ us)) ≡ true
      → Settles {h = h} (Kind.set e r) (u ∷ us) (v ∷ vs) (build_set e r (v ∷ vs))
  unfolding build_set next put_current old_names set_names
  set_compares e r u v us vs (w, n, l, g) d b c rest =
      let is = map (index e) (u ∷ us) in
      let (c1, q) = Reads-uinteger (length (u ∷ us)) (omega arith) c (uintegers_bytes is ++ rest) in
      let (c2, p) = Reads-numbers is (Reads-positions e (u ∷ us) w n g) c1 rest in
      let as_many : length is ≡ length (v ∷ vs) =
        length-map_index e (u ∷ us) ∙ sym (==→eq (length (v ∷ vs)) (length (u ∷ us)) d) in
      let p' =
        subst
          (λ k.
            read_times k deserialize_uinteger (at c1 (uintegers_bytes is ++ rest))
            ≡ ok (is, at c2 rest))
          as_many p in
      let regroup = append_assoc (put_uvarint (length (u ∷ us))) (uintegers_bytes is) rest in
      let not_empty = ==_ne (length (v ∷ vs)) 0 (omega arith) in
      let positive = lt→ltb 0 (length (v ∷ vs)) (omega arith) in
      let names = names_of-map_index e (u ∷ us) w g in
      elim (Bool-cases b.has_current) [
        | inl on ↦ (
          c2,
          rw (regroup, q, d, not_empty, p', names, positive, on, assign-assign _ _ _ b.current),
        )
        | inr off ↦ (c2, rw (regroup, q, d, not_empty, p', names, positive, off))
      ]

  pub set-Settles :
      (e : Enum) (r : Bool) (us vs : List Text)
      → IsStorable h (Kind.set e r) us
      → Settles {h = h} (Kind.set e r) us vs (build_set e r vs)
  set-Settles e r [] [] g = set_empty e r
  set-Settles e r [] (v ∷ vs) g = set_differs e r [] (v ∷ vs) g (==_ne _ 0 (omega arith))
  set-Settles e r (u ∷ us) [] g = set_differs e r (u ∷ us) [] g (==_ne 0 _ (omega arith))
  set-Settles e r (u ∷ us) (v ∷ vs) g = elim (Bool-cases (length (v ∷ vs) == length (u ∷ us))) [
    | inl d ↦ set_compares e r u v us vs g d
    | inr d ↦ set_differs e r (u ∷ us) (v ∷ vs) g d
  ]

  set_ids-written :
      (r : Bool) (i : ℕ) (ids : List ℕ) (name : Text) (b : Builder h)
      → ok (set_ids r name (encoded_ids h ids) b)
        ≡ write (written h (Kind.refs_many r) true i ids) name b
  unfolding set_ids
  set_ids-written r i ids name b = elim (Bool-cases (is_blank (encoded_ids h ids))) [
    | inr s ↦ rw s
    | inl s ↦ elim (Bool-cases r) [ inl q ↦ rw (s, q) | inr q ↦ rw (s, q) ]
  ]

  full_ids-written :
      (r : Bool) (name val : Text) (b : Builder h)
      → is_blank val ≡ false
      → ok (set_ids r name val b) ≡ ok (put_bind name (str val) (quote val) b)
  unfolding set_ids
  full_ids-written r name val b s = rw s

  blank_ids-written :
      (r : Bool) (name : Text) (b : Builder h)
      → ok (set_ids r name [] b)
        ≡ ok (put_bind name (text_or_empty r []) (blank_sql r (quote (b'[' ∷ b']' ∷ []))) b)
  unfolding set_ids
  blank_ids-written true name b = refl
  blank_ids-written false name b = refl

  pub refs_many-Settles :
      (r : Bool) (us vs : List ℕ)
      → IsStorable h (Kind.refs_many r) us
      → Settles {h = h} (Kind.refs_many r) us vs (build_refs_many r vs)
  unfolding build_refs_many next put_current ids_text text_eq
  refs_many-Settles r [] vs (l, g) b c rest =
      let (c1, q) = Reads-uinteger 0 (omega arith) c rest in
      (
        c1,
        rw (append-nil (put_uvarint 0), q, text_eq-blank (encoded_ids h vs))
            (or_else (is_blank (encoded_ids h vs)) _ (set_ids-written r b.entity_id vs _ _)),
      )
  refs_many-Settles r (u ∷ us) vs (l, g) b c rest =
      let (c1, q) =
        Reads-uinteger (suc (length us)) (omega arith) c (uintegers_bytes (u ∷ us) ++ rest) in
      let (c2, p) = Reads-numbers (u ∷ us) (Reads-each (u ∷ us) g) c1 rest in
      let regroup = append_assoc (put_uvarint (suc (length us))) (uintegers_bytes (u ∷ us)) rest in
      let not_empty = ==_ne (suc (length us)) 0 (omega arith) in
      let fits = lt→ltb (suc (length us)) (2 ^ 63) l in
      elim (Bool-cases (is_blank (encoded_ids h vs))) [
        | inl s ↦ (c2, rw (regroup, q, not_empty, blank→eq _ s, fits, p) (blank_ids-written r _ _))
        | inr s ↦ (
          c2,
          rw (regroup, q, not_empty, s, fits, p)
              (or_else (text_eq (ids_text (u ∷ us)) (encoded_ids h vs)) _
                (full_ids-written r _ _ _ s)),
        )
      ]
