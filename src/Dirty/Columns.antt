-- ===== src/Dirty/Columns.antt =====
-- orm.go: what GetDirtyBind holds under the name of one column.
use trixorm.Shared.{
  ℕ, zero, suc, ◌+◌, ◌<◌, ◌≤◌, ◌^◌, ◌≡◌, ◌≢◌, refl, sym, ap, ◌∙◌, Bool, true, false, if◌then◌else◌,
  Text, text_eq, text_eq→eq, text_eq_self, Option, none, some, Result, ok, panic, then_do, List, [],
  ◌∷◌, Bool-cases, inl, inr, arith,
}
use trixorm.Host.{Host, IsLawful}
use trixorm.Schema.{Kind, columns}
use trixorm.Maps.{Map, find, assign, find-assign}
use trixorm.Entity.{ValueOf, Row}
use trixorm.Builder.{BindValue}
use trixorm.Builder.Diff.{is_same, written, Written}
use trixorm.Serializer.{Serializer}
use trixorm.Entity.Forms.{IsStorableRow}
use trixorm.Builder.{Builder}
use trixorm.Builder.Build.{TableSchema, Orm, build_dirty_bind}
use trixorm.Dirty.Changes.{stored_entity, outcome, collected, build_dirty_bind-changes}
use trixorm.Dirty.{changes, change, assign_values}

-- No two columns have the same name.
abbrev pub AreDistinct : (ℕ → Text) → Type 0
AreDistinct names = (a b : ℕ) → names a ≡ names b → a ≡ b

other_name :
    (names : ℕ → Text) → AreDistinct names → (i j : ℕ) → i ≢ j → text_eq (names i) (names j) ≡ false
other_name names d i j ne = elim (Bool-cases (text_eq (names i) (names j))) [
  | inl e ↦ elim (ne (d i j (text_eq→eq (names i) (names j) e))) [ ]
  | inr e ↦ e
]

abbrev OnOk : {A : Type 0} → (A → Type 0) → Result A → Type 0
OnOk P (ok a) = P a
OnOk P (panic x) = Unit {0}

told-OnOk :
    {A B : Type 0} (f : A → B) (b : B) (r : Result A)
    → OnOk (λ a. f a ≡ b) r
    → then_do r (λ a. ok (f a)) ≡ then_do r (λ a. ok b)
told-OnOk f b (ok a) e = ap ok e
told-OnOk f b (panic x) e = refl

module _ {h : Host} where
  abbrev value_of : Result (Written h) → Option (BindValue h)
  value_of (ok p) = some p.0
  value_of (panic x) = none

  -- The value to be written to column `j`, and none where it stays or there is no such column.
  abbrev pub expected : ℕ → (ks : List Kind) → Row h ks → Row h ks → ℕ → Option (BindValue h)
  expected entity_id [] old new j = none
  expected entity_id (k ∷ ks) (u, old) (v, new) zero =
      if is_same h k u v then none else value_of (written h k true entity_id v)
  expected entity_id (k ∷ ks) (u, old) (v, new) (suc j) = expected entity_id ks old new j

  -- What holds of the changes of a column and those after it, if it holds with and without it.
  change-OnOk :
      (P : List (Text × Written h) → Type 0) (Q : List (Text × Written h) → Type 0) (same : Bool)
      (res : Result (Written h)) (name : Text) (rest : Result (List (Text × Written h)))
      → OnOk Q rest
      → ((cs : List (Text × Written h)) → same ≡ true → Q cs → P cs)
      → ((cs : List (Text × Written h)) (p : Written h)
          → same ≡ false
          → res ≡ ok p
          → Q cs
          → P ((name, p) ∷ cs))
      → OnOk P (change same res name rest)
  change-OnOk P Q true res name (ok cs) q f g = f cs refl q
  change-OnOk P Q true res name (panic x) q f g = tt
  change-OnOk P Q false (ok p) name (ok cs) q f g = g cs p refl refl q
  change-OnOk P Q false (ok p) name (panic x) q f g = tt
  change-OnOk P Q false (panic x) name rest q f g = tt

  stays : {same : Bool} (x : Option (BindValue h)) → same ≡ true → (if same then none else x) ≡ none
  stays x e = rw e

  goes :
      {same : Bool} {r : Result (Written h)} {p : Written h}
      → same ≡ false
      → r ≡ ok p
      → (if same then none else value_of r) ≡ some p.0
  goes e w = rw (e, w)

module _ (h : Host) (names : ℕ → Text) (d : AreDistinct names) (entity_id : ℕ) where
  abbrev SparesEarlier : ℕ → List (Text × Written h) → Type 0
  SparesEarlier i cs =
      (m : Map (BindValue h)) (n : ℕ)
      → n < i
      → find (names n) (assign_values cs m) ≡ find (names n) m

  find-assign_other :
      (i n : ℕ) (x : BindValue h) (m : Map (BindValue h))
      → i ≢ n
      → find (names n) (assign (names i) x m) ≡ find (names n) m
  find-assign_other i n x m ne =
      find-assign (names i) (names n) x m ∙ rw (other_name names d i n ne)

  find-assign_same :
      (i : ℕ) (x : BindValue h) (m : Map (BindValue h))
      → find (names i) (assign (names i) x m) ≡ some x
  find-assign_same i x m = find-assign (names i) (names i) x m ∙ rw (text_eq_self (names i))

  -- Columns from `i` on leave alone what stands under the names before.
  changes-SparesEarlier :
      (i : ℕ) (ks : List Kind) (old new : Row h ks)
      → OnOk (SparesEarlier i) (changes h names entity_id i ks old new)
  changes-SparesEarlier i [] old new = λ m n l. refl
  changes-SparesEarlier i (k ∷ ks) (u, old) (v, new) =
      change-OnOk (SparesEarlier i) (SparesEarlier (i + 1)) (is_same h k u v)
        (written h k true entity_id v) (names i) (changes h names entity_id (i + 1) ks old new)
        (changes-SparesEarlier (i + 1) ks old new) (λ cs e q m n l. q m n (omega arith))
        (λ cs p e r q m n l.
          q (assign (names i) p.0 m) n (omega arith) ∙ find-assign_other i n p.0 m (omega arith))

  abbrev Meets : ℕ → (ks : List Kind) → Row h ks → Row h ks → List (Text × Written h) → Type 0
  Meets i ks old new cs =
      (m : Map (BindValue h)) (j : ℕ)
      → ((n : ℕ) → i ≤ n → find (names n) m ≡ none)
      → find (names (i + j)) (assign_values cs m) ≡ expected entity_id ks old new j

  pair-OnOk :
      (P Q : List (Text × Written h) → Type 0) (r : Result (List (Text × Written h)))
      → OnOk P r
      → OnOk Q r
      → OnOk (λ cs. P cs × Q cs) r
  pair-OnOk P Q (ok cs) p q = (p, q)
  pair-OnOk P Q (panic x) p q = tt

  at_suc :
      (i j : ℕ) (cs : List (Text × Written h)) (m : Map (BindValue h))
      → find (names (i + suc j)) (assign_values cs m)
        ≡ find (names (i + 1 + j)) (assign_values cs m)
  at_suc i j cs m = ap (λ (n : ℕ). find (names n) (assign_values cs m)) (omega arith)

  kept_column :
      (i : ℕ) (k : Kind) (ks : List Kind) (u v : ValueOf h k) (old new : Row h ks)
      (cs : List (Text × Written h))
      → is_same h k u v ≡ true
      → SparesEarlier (i + 1) cs × Meets (i + 1) ks old new cs
      → Meets i (k ∷ ks) (u, old) (v, new) cs
  kept_column i k ks u v old new cs e (q, f) m zero none_yet =
      q m (i + 0) (omega arith) ∙ none_yet (i + 0) (omega arith) ∙ sym (stays _ e)
  kept_column i k ks u v old new cs e (q, f) m (suc j) none_yet =
      at_suc i j cs m ∙ f m j (λ n l. none_yet n (omega (arith, l)))

  written_column :
      (i : ℕ) (k : Kind) (ks : List Kind) (u v : ValueOf h k) (old new : Row h ks)
      (cs : List (Text × Written h)) (p : Written h)
      → is_same h k u v ≡ false
      → written h k true entity_id v ≡ ok p
      → SparesEarlier (i + 1) cs × Meets (i + 1) ks old new cs
      → Meets i (k ∷ ks) (u, old) (v, new) ((names i, p) ∷ cs)
  written_column i k ks u v old new cs p e w (q, f) m zero none_yet =
      q (assign (names i) p.0 m) (i + 0) (omega arith)
      ∙ ap (λ n. find (names n) (assign (names i) p.0 m)) (omega arith)
      ∙ find-assign_same i p.0 m
      ∙ sym (goes e w)
  written_column i k ks u v old new cs p e w (q, f) m (suc j) none_yet =
      at_suc i j cs (assign (names i) p.0 m)
      ∙ f (assign (names i) p.0 m) j
          (λ n l. find-assign_other i n p.0 m (omega (arith, l)) ∙ none_yet n (omega (arith, l)))

  changes-Meets :
      (i : ℕ) (ks : List Kind) (old new : Row h ks)
      → OnOk (Meets i ks old new) (changes h names entity_id i ks old new)
  changes-Meets i [] old new = λ m j none_yet. none_yet (i + j) (omega arith)
  changes-Meets i (k ∷ ks) (u, old) (v, new) =
      change-OnOk (Meets i (k ∷ ks) (u, old) (v, new))
        (λ cs. SparesEarlier (i + 1) cs × Meets (i + 1) ks old new cs) (is_same h k u v)
        (written h k true entity_id v) (names i) (changes h names entity_id (i + 1) ks old new)
        (pair-OnOk _ _ (changes h names entity_id (i + 1) ks old new)
          (changes-SparesEarlier (i + 1) ks old new) (changes-Meets (i + 1) ks old new))
        (λ cs e q. kept_column i k ks u v old new cs e q)
        (λ cs p e r q. written_column i k ks u v old new cs p e r q)

module _ {h : Host} {s : TableSchema} where
  FoundIn :
      (name : Text) (r : Result (Builder h × Orm h s × Bool))
      → then_do r (λ q. ok (find name q.0.bind))
        ≡ then_do (then_do r (λ q. ok (outcome q))) (λ o. ok (find name o.0))
  FoundIn name (ok q) = refl
  FoundIn name (panic x) = refl

module _ {h : Host} where
  found_among :
      (name : Text) (rs : Result (List (Text × Written h)))
      → then_do (then_do rs (λ cs. ok (collected cs))) (λ o. ok (find name o.0))
        ≡ then_do rs (λ cs. ok (find name (assign_values cs [])))
  found_among name (ok cs) = refl
  found_among name (panic x) = refl

changes-expected :
    (h : Host) (names : ℕ → Text) (d : AreDistinct names) (entity_id : ℕ) (ks : List Kind)
    (old new : Row h ks) (j : ℕ) (r : Result (List (Text × Written h)))
    → OnOk (Meets h names d entity_id 0 ks old new) r
    → OnOk (λ cs. find (names j) (assign_values cs []) ≡ expected entity_id ks old new j) r
unfolding find
changes-expected h names d entity_id ks old new j (ok cs) f =
    ap (λ (n : ℕ). find (names n) (assign_values cs [])) (omega arith) ∙ f [] j (λ n l. refl)
changes-expected h names d entity_id ks old new j (panic x) f = tt

-- For an entity as in the theorem on all changes (in the database, not marked for deletion, with
-- storable values below its binary and a hash below 2^64), and with a name of its own for each
-- column, the Bind of buildDirtyBind holds under the name of a column the value to be written just
-- if old and new value differ, and nothing otherwise; it panics just where the list of changes does.
pub find-build_dirty_bind :
    {h : Host} (s : TableSchema) (law : IsLawful h) (hash c : ℕ) (loaded : Bool) (entity_id : ℕ)
    (old new : Row h (columns s.fields)) (z : Serializer) (j : ℕ)
    → hash < 2 ^ 64
    → IsStorableRow h (columns s.fields) old
    → AreDistinct s.column_names
    → then_do
        (build_dirty_bind (stored_entity {h = h} s hash c loaded entity_id old new) z)
        (λ r. ok (find (s.column_names j) r.0.bind))
      ≡ then_do
          (changes h s.column_names entity_id 0 (columns s.fields) old new)
          (λ cs. ok (expected entity_id (columns s.fields) old new j))
find-build_dirty_bind {h} s law hash c loaded entity_id old new z j small g d =
    let name = s.column_names j in
    let ks = columns s.fields in
    let cs = changes h s.column_names entity_id 0 ks old new in
    FoundIn name (build_dirty_bind (stored_entity {h = h} s hash c loaded entity_id old new) z)
    ∙ ap (λ (r : Result (Map (BindValue h) × Map Text × Bool)). then_do r (λ o. ok (find name o.0)))
        (build_dirty_bind-changes s law hash c loaded entity_id old new z small g)
    ∙ found_among name cs
    ∙ told-OnOk (λ a. find name (assign_values a [])) (expected entity_id ks old new j) cs
        (changes-expected h s.column_names d entity_id ks old new j cs
          (changes-Meets h s.column_names d entity_id 0 ks old new))
