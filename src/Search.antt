-- ===== src/Search.antt =====
-- pager.go, where.go and search.go: the queries for ids, page by page.
pub mod Totals
use trixorm.Shared.{
  ℕ, zero, suc, ◌+◌, ◌-◌, ◌*◌, ◌==◌, ltb, Bool, true, false, not, ◌&&◌, ◌||◌, if◌then◌else◌, Text,
  Option, none, some, List, [], ◌∷◌, ◌++◌, length, drop, ◌≡◌, refl, Result, ok, panic, then_do,
  nil_parameter, arith,
}
use trixorm.Sql.{format_uint}

-- Pages are counted from 1.
pub record Pager : Type 0 where
  pub current_page : ℕ
  pub page_size : ℕ

abbrev pub new_pager : ℕ → ℕ → Pager
new_pager page size = record { current_page = page; page_size = size }

abbrev pub increment_page : Pager → Pager
increment_page p = record p { current_page = p.current_page + 1 }

abbrev pub offset_of : Pager → ℕ
offset_of p = (p.current_page - 1) * p.page_size

-- The String method.
unfoldable pub limit_text : Pager → Text
limit_text p =
    b'L' ∷ b'I' ∷ b'M' ∷ b'I' ∷ b'T' ∷ b' ' ∷ []
    ++ format_uint (offset_of p)
    ++ b',' ∷ []
    ++ format_uint p.page_size

-- A parameter of a query, of some type of values, or a slice of them.
pub data Parameter (V : Type 0) : Type 0 where
  value : V → Parameter V
  slice : List V → Parameter V

pub record Where (V : Type 0) : Type 0 where
  pub query : Text
  pub parameters : List V
  pub show_fake_deleted : Bool

-- `strings.TrimLeft(strings.Repeat(",?", n), ",")`
abbrev pub marks_after : ℕ → Text
marks_after zero = []
marks_after (suc n) = b',' ∷ b'?' ∷ marks_after n

abbrev pub marks : ℕ → Text
marks zero = []
marks (suc n) = b'?' ∷ marks_after n

-- Whether the text begins with "IN ?".
abbrev pub begins : Text → Bool
begins (a ∷ b ∷ c ∷ d ∷ rest) = a == b'I' && b == b'N' && c == b' ' && d == b'?'
begins _ = false

-- `strings.Replace(query, "IN ?", "IN ("+in+")", 1)`
unfoldable pub replace_in : Text → Text → Text
replace_in ins [] = []
replace_in ins (c ∷ s) =
    let later = c ∷ replace_in ins s in
    let here = (b'I' ∷ b'N' ∷ b' ' ∷ b'(' ∷ []) ++ ins ++ b')' ∷ drop 4 (c ∷ s) in
    if begins (c ∷ s) then here else later

abbrev pub not_deleted : Text
not_deleted =
    b'`' ∷ b'F' ∷ b'a' ∷ b'k' ∷ b'e' ∷ b'D' ∷ b'e' ∷ b'l' ∷ b'e' ∷ b't' ∷ b'e' ∷ b'`' ∷ b' ' ∷ b'='
    ∷ b' ' ∷ b'0' ∷ b' ' ∷ b'A' ∷ b'N' ∷ b'D' ∷ b' ' ∷ []

-- MySQL: the ids that match a condition from an offset on, at most so many, and their number.
pub record Database (V : Type 0) : Type 0 where
  pub select_ids : Text → List V → ℕ → ℕ → List ℕ
  pub count : Text → List V → ℕ

module _ {V : Type 0} where
  -- What the loop of NewWhere does with a slice, to the condition and the parameters so far.
  unfoldable pub add_slice : Text × List V → List V → Text × List V
  unfolding replace_in
  add_slice w vs = (replace_in (marks (length vs)) w.0, w.1 ++ vs)

  abbrev where_of : Text × List V → Where V
  where_of w = record { query = w.0; parameters = w.1; show_fake_deleted = false }

  -- The loop over the parameters that are left. `reflect.TypeOf(nil)` is nil, and its Kind panics; a
  -- nil inside a slice is not asked.
  unfoldable pub add_parameters : (V → Bool) → Text × List V → List (Parameter V) → Result (Where V)
  unfolding add_slice
  add_parameters is_nil w [] = ok (where_of w)
  add_parameters is_nil w (value v ∷ ps) =
      let rest = add_parameters is_nil (w.0, w.1 ++ v ∷ []) ps in
      if is_nil v then panic nil_parameter else rest
  add_parameters is_nil w (slice vs ∷ ps) = add_parameters is_nil (add_slice w vs) ps

  unfoldable pub new_where : (V → Bool) → Text → List (Parameter V) → Result (Where V)
  unfolding add_parameters
  new_where is_nil query ps = add_parameters is_nil (query, []) ps

  -- Append
  unfoldable pub append_where : (V → Bool) → Where V → Text → List (Parameter V) → Result (Where V)
  unfolding new_where
  append_where is_nil w query ps = then_do (new_where is_nil query ps) λ more. ok (record w {
    query = w.query ++ b' ' ∷ more.query;
    parameters = w.parameters ++ more.parameters;
  })

  -- NewWhere of one slice, which never panics.
  unfoldable pub where_of_slice : Text → List V → Where V
  unfolding add_slice
  where_of_slice query vs = where_of (add_slice (query, []) vs)

  new_where-where_of_slice :
      (is_nil : V → Bool) (query : Text) (vs : List V)
      → new_where is_nil query (slice vs ∷ []) ≡ ok (where_of_slice query vs)
  unfolding new_where where_of_slice
  new_where-where_of_slice is_nil query vs = refl

  -- No parameter is nil.
  abbrev pub without_nil : (V → Bool) → List (Parameter V) → Bool
  without_nil is_nil [] = true
  without_nil is_nil (value v ∷ ps) = not (is_nil v) && without_nil is_nil ps
  without_nil is_nil (slice vs ∷ ps) = without_nil is_nil ps

  add_parameters-ok :
      (is_nil : V → Bool) (ps : List (Parameter V)) (w : Text × List V)
      → without_nil is_nil ps ≡ true
      → (made : Where V) × (add_parameters is_nil w ps ≡ ok made)
  unfolding add_parameters
  add_parameters-ok is_nil [] w h = (where_of w, refl)
  add_parameters-ok is_nil (value v ∷ ps) w h =
      let (made, e) = add_parameters-ok is_nil ps (w.0, w.1 ++ v ∷ []) (ground arith) in
      (made, ground arith)
  add_parameters-ok is_nil (slice vs ∷ ps) w h = add_parameters-ok is_nil ps (add_slice w vs) h

  -- NewWhere returns if no parameter is nil.
  pub new_where-ok :
      (is_nil : V → Bool) (query : Text) (ps : List (Parameter V))
      → without_nil is_nil ps ≡ true
      → (made : Where V) × (new_where is_nil query ps ≡ ok made)
  unfolding new_where
  new_where-ok is_nil query ps h = add_parameters-ok is_nil ps (query, []) h

  -- The condition with the test of FakeDelete in front, if it is asked for.
  unfoldable pub visible : Bool → Bool → Where V → Where V
  unfolding where_of_slice
  visible skip_fake_delete has_fake_delete w =
      if skip_fake_delete && not w.show_fake_deleted && has_fake_delete
      then where_of_slice (not_deleted ++ w.query) w.parameters
      else w

  module _ (db : Database V) where
    unfoldable pub get_total_rows : Bool → Pager → Where V → ℕ → ℕ
    get_total_rows with_count pager w found =
        let asked = db.count w.query w.parameters in
        let full = found == pager.page_size || (found == 0 && ltb 1 pager.current_page) in
        if not with_count then 0 else if full then asked else found + offset_of pager

    -- searchIDs. The nil pager is (1, 50000).
    unfoldable pub search_ids : Bool → Bool → Where V → Option Pager → Bool → List ℕ × ℕ
    unfolding visible get_total_rows
    search_ids skip_fake_delete has_fake_delete w0 pager with_count =
        let p : Pager = elim pager [ none ↦ new_pager 1 50000 | some p ↦ p ] in
        let w = visible skip_fake_delete has_fake_delete w0 in
        let ids = db.select_ids w.query w.parameters (offset_of p) p.page_size in
        (ids, get_total_rows with_count p w (length ids))
