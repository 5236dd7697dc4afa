-- ===== src/Dirty/Stable.antt =====
-- orm.go and bind_builder.go: an entity that has just been saved, compared with its own binary.
use trixorm.Shared.{
  ℕ, ◌+◌, ◌^◌, ◌<◌, ◌≡◌, ◌≢◌, refl, ap, ◌∙◌, Bool, true, false, not, ◌||◌, ◌&&◌, ◌==◌, ==_self,
  if◌then◌else◌, Text, text_eq, text_eq_self, Option, none, some, Result, ok, panic, then_do,
  length, map, List, [], ◌∷◌, arith,
}
use trixorm.Int64.{ℤ, pos, negsuc, int_eq, int_eq_self, is_positive}
use trixorm.Enum.{Enum, index}
use trixorm.Host.{Host, IsLawful}
use trixorm.Json.{ids_text}
use trixorm.Schema.{
  Kind, ref, id, uinteger, integer, boolean, float, time, date, fake_delete, text,
  uinteger_nullable, integer_nullable, enumeration, bytes, set, boolean_nullable, float_nullable,
  time_nullable, date_nullable, json, refs_many, columns,
}
use trixorm.Serializer.{Serializer}
use trixorm.Entity.{ValueOf, Row, ref_id}
use trixorm.Entity.Forms.{enum_code, IsStorableRow}
use trixorm.Entity.Times.{kept_seconds, zero_date_unix}
use trixorm.Builder.Plain.{flag_eq, counts_as_zero}
use trixorm.Builder.Texts.{contains, all_known, is_blank}
use trixorm.Builder.Build.{TableSchema, build_dirty_bind, get_dirty_bind, is_dirty, Orm}
use trixorm.Builder.Diff.{is_same, written, Written, same_option, moment, same_moment}
use trixorm.Builder.{Builder}
use trixorm.Maps.{Map}
use trixorm.Builder.{BindValue}
use trixorm.Dirty.{changes, change, no_changes}
use trixorm.Dirty.Changes.{stored_entity, outcome, collected, build_dirty_bind-changes}

abbrev pub is_natural : ℤ → Bool
is_natural (pos n) = true
is_natural (negsuc n) = false

-- Unix seconds that a nullable column gives back as they were.
abbrev pub is_kept : ℤ → Bool
is_kept u = is_positive u || int_eq u zero_date_unix

abbrev on_some : {A : Type 0} → (A → Bool) → Option A → Bool
on_some p none = true
on_some p (some a) = p a

-- The values that the binary keeps well enough to count as unchanged. Times can fail, and floats
-- whose rounded value does not count as near them.
abbrev pub survives : (h : Host) → (k : Kind) → ValueOf h k → Bool
survives h (float p w) v = h.is_near p v (h.round_to p v)
survives h (float_nullable p w) v = on_some (λ a. h.is_near p a (h.round_to p a)) v
survives h time t = counts_as_zero h t || is_natural (h.unix t)
survives h date t = counts_as_zero h t || is_natural (h.unix (h.start_of_day t))
survives h time_nullable t = on_some (λ a. is_kept (h.unix a)) t
survives h date_nullable t = on_some (λ a. is_kept (h.unix (h.start_of_day a))) t
survives h _ v = true

abbrev pub survives_row : (h : Host) → (ks : List Kind) → Row h ks → Bool
survives_row h [] row = true
survives_row h (k ∷ ks) (v, row) = survives h k v && survives_row h ks row

-- No enum has the empty text among its values.
abbrev pub HasNoBlank : Kind → Type 0
HasNoBlank (enumeration e r) = index e [] ≡ 0
HasNoBlank _ = Unit {0}

abbrev pub HasNoBlanks : List Kind → Type 0
HasNoBlanks [] = Unit {0}
HasNoBlanks (k ∷ ks) = HasNoBlank k × HasNoBlanks ks

same_moment_self :
    (z c : Bool) (u : ℤ)
    → (z ≡ true → c ≡ true)
    → same_moment (moment z u) c u ≡ (c || is_natural u)
same_moment_self true c (pos n) f = ground arith
same_moment_self true c (negsuc n) f = ground arith
same_moment_self false c (pos n) f = ground arith
same_moment_self false true (negsuc n) f = refl
same_moment_self false false (negsuc n) f = refl

kept_seconds-same : (u : ℤ) → int_eq (kept_seconds u) u ≡ is_kept u
kept_seconds-same (pos n) = ground arith
kept_seconds-same (negsuc n) = ground arith

same_option_self :
    {A : Type 0} (same : A → A → Bool)
    → ((a : A) → same a a ≡ true)
    → (o : Option A) → same_option same o o ≡ true
same_option_self same f none = refl
same_option_self same f (some a) = f a

flag_eq_self : (b : Bool) → flag_eq b b ≡ true
flag_eq_self true = refl
flag_eq_self false = refl

enum_code-index : (e : Enum) (v : Text) → index e [] ≡ 0 → (enum_code e v == index e v) ≡ true
enum_code-index e [] b = rw b
enum_code-index e (c ∷ v) b = ==_self (index e (c ∷ v))

-- A value is among the old ones wherever more of them stand in front.
all_known-weaken :
    (e : Enum) (i : ℕ) (old : List ℕ) (vs : List Text)
    → all_known e old vs ≡ true
    → all_known e (i ∷ old) vs ≡ true
unfolding all_known contains
all_known-weaken e i old [] g = refl
all_known-weaken e i old (v ∷ vs) g = ground (arith, all_known-weaken e i old vs)

all_known_self : (e : Enum) (vs : List Text) → all_known e (map (index e) vs) vs ≡ true
unfolding all_known contains
all_known_self e [] = refl
all_known_self e (v ∷ vs) = rw (
  ==_self (index e v),
  all_known-weaken e (index e v) (map (index e) vs) vs (all_known_self e vs),
)

json_same :
    (t : Text) (same : Bool) → t ≢ [] → same ≡ true → (if is_blank t then false else same) ≡ true
json_same [] same ne e = elim (ne refl) [ ]
json_same (c ∷ t) same ne e = e

-- A stored value counts as unchanged exactly if it survives.
pub is_same_self :
    {h : Host} (law : IsLawful h) (k : Kind) (v : ValueOf h k)
    → HasNoBlank k
    → is_same h k v v ≡ survives h k v
unfolding ids_text text_eq
is_same_self {h} law ref v b = ==_self (ref_id v)
is_same_self {h} law id v b = refl
is_same_self {h} law (uinteger w) v b = ==_self v
is_same_self {h} law (integer w) v b = int_eq_self v
is_same_self {h} law boolean v b = flag_eq_self v
is_same_self {h} law (float p w) v b = refl
is_same_self {h} law time v b =
    same_moment_self (h.is_zero v) (counts_as_zero h v) (h.unix v) (λ e. rw e)
is_same_self {h} law date v b =
    same_moment_self (h.is_zero v) (counts_as_zero h v) (h.unix (h.start_of_day v)) (λ e. rw e)
is_same_self {h} law fake_delete v b = flag_eq_self v
is_same_self {h} law (text r) v b = text_eq_self v
is_same_self {h} law (uinteger_nullable w) v b = same_option_self _ ==_self v
is_same_self {h} law (integer_nullable w) v b = same_option_self _ int_eq_self v
is_same_self {h} law (enumeration e r) v b = enum_code-index e v b
is_same_self {h} law bytes v b = text_eq_self v
is_same_self {h} law (set e r) v b = rw (==_self (length v), all_known_self e v)
is_same_self {h} law boolean_nullable v b = same_option_self _ flag_eq_self v
is_same_self {h} law (float_nullable p w) none b = refl
is_same_self {h} law (float_nullable p w) (some a) b = refl
is_same_self {h} law time_nullable none b = refl
is_same_self {h} law time_nullable (some t) b = kept_seconds-same (h.unix t)
is_same_self {h} law date_nullable none b = refl
is_same_self {h} law date_nullable (some t) b = kept_seconds-same (h.unix (h.start_of_day t))
is_same_self {h} law (json r) none b = refl
is_same_self {h} law (json r) (some j) b =
    json_same (h.marshal j) (h.same_json (h.marshal j) (h.marshal j)) (law.marshal-ne_nil j)
      (law.same_json_self (h.marshal j))
is_same_self {h} law (refs_many r) [] b = refl
is_same_self {h} law (refs_many r) (i ∷ ids) b =
    rw (law.marshal_ids_text i ids) (text_eq_self (ids_text (i ∷ ids)))

module _ {h : Host} where
  -- Writing a value that does not survive never panics: only an enum can, and it survives.
  written-survives :
      (k : Kind) (v : ValueOf h k) (i : ℕ)
      → survives h k v ≡ false
      → (p : Written h) × (written h k true i v ≡ ok p)
  written-survives ref v i g = (_, refl)
  written-survives id v i g = (_, refl)
  written-survives (uinteger w) v i g = (_, refl)
  written-survives (integer w) v i g = (_, refl)
  written-survives boolean v i g = (_, refl)
  written-survives (float p w) v i g = (_, refl)
  written-survives time v i g = (_, refl)
  written-survives date v i g = (_, refl)
  written-survives fake_delete v i g = (_, refl)
  written-survives (text r) v i g = (_, refl)
  written-survives (uinteger_nullable w) v i g = (_, refl)
  written-survives (integer_nullable w) v i g = (_, refl)
  written-survives (enumeration e r) v i g = ground arith
  written-survives bytes v i g = (_, refl)
  written-survives (set e r) v i g = (_, refl)
  written-survives boolean_nullable v i g = (_, refl)
  written-survives (float_nullable p w) v i g = (_, refl)
  written-survives time_nullable v i g = (_, refl)
  written-survives date_nullable v i g = (_, refl)
  written-survives (json r) v i g = (_, refl)
  written-survives (refs_many r) v i g = (_, refl)

  one_column :
      (same : Bool) (res : Result (Written h)) (name : Text)
      (rest : Result (List (Text × Written h))) (stays : Bool)
      → (same ≡ false → (p : Written h) × (res ≡ ok p))
      → then_do rest (λ cs. ok (no_changes cs)) ≡ ok stays
      → then_do (change same res name rest) (λ cs. ok (no_changes cs)) ≡ ok (same && stays)
  one_column true res name rest stays f e = e
  one_column false res name (ok cs) stays f e = rw ((f refl).1)
  one_column false res name (panic x) stays f e = cc

  -- Nothing changes in a row of values that all survive, and something does in any other.
  changes_self :
      (law : IsLawful h) (names : ℕ → Text) (entity_id i : ℕ) (ks : List Kind) (row : Row h ks)
      → HasNoBlanks ks
      → then_do (changes h names entity_id i ks row row) (λ cs. ok (no_changes cs))
        ≡ ok (survives_row h ks row)
  changes_self law names entity_id i [] row b = refl
  changes_self law names entity_id i (k ∷ ks) (v, row) (b, bs) = rw (is_same_self law k v b) (
      one_column (survives h k v) (written h k true entity_id v) (names i)
        (changes h names entity_id (i + 1) ks row row) (survives_row h ks row)
        (written-survives k v entity_id) (changes_self law names entity_id (i + 1) ks row bs))

  abbrev as_bind :
      {s : TableSchema} → Builder h × Orm h s × Bool → Map (BindValue h) × Orm h s × Bool
  as_bind q = (q.0.bind, q.1, q.2)

  asked :
      {s : TableSchema} (r : Result (Builder h × Orm h s × Bool))
      → then_do (then_do r (λ q. ok (as_bind q))) (λ q. ok q.2)
        ≡ then_do (then_do r (λ q. ok (outcome q))) (λ o. ok o.2)
  asked (ok r) = refl
  asked (panic p) = refl

  told :
      (rs : Result (List (Text × Written h))) (b : Bool)
      → then_do rs (λ cs. ok (no_changes cs)) ≡ ok b
      → then_do (then_do rs (λ cs. ok (collected cs))) (λ o. ok o.2) ≡ ok (not b)
  told (ok cs) b e = cc
  told (panic p) b e = cc

  -- IsDirty of an entity in the database whose fields are those in its binary (storable, no enum
  -- with an empty value, a hash below 2^64) is false if each float and each time survives, and true
  -- otherwise: a float survives if the program's comparison finds it near its own rounded value; a
  -- time or date that is not zero survives from 1970 on (or at MySQL's zero date), a nullable one
  -- after 1970 (or at the second that the zero date reads back as).
  pub is_dirty-saved :
      (law : IsLawful h) (s : TableSchema) (hash c : ℕ) (loaded : Bool) (entity_id : ℕ)
      (row : Row h (columns s.fields)) (z : Serializer)
      → hash < 2 ^ 64
      → IsStorableRow h (columns s.fields) row
      → HasNoBlanks (columns s.fields)
      → is_dirty (stored_entity {h = h} s hash c loaded entity_id row row) z
        ≡ ok (not (survives_row h (columns s.fields) row))
  unfolding is_dirty get_dirty_bind
  is_dirty-saved law s hash c loaded entity_id row z small g b =
      asked (build_dirty_bind (stored_entity {h = h} s hash c loaded entity_id row row) z)
      ∙ ap (λ (r : Result (Map (BindValue h) × Map Text × Bool)). then_do r (λ o. ok o.2))
          (build_dirty_bind-changes s law hash c loaded entity_id row row z small g)
      ∙ told (changes h s.column_names entity_id 0 (columns s.fields) row row)
          (survives_row h (columns s.fields) row)
          (changes_self law s.column_names entity_id 0 (columns s.fields) row b)
