-- ===== src/Search/Totals.antt =====
-- search.go: the number of rows that searchIDs returns beside a page of ids.
use trixorm.Shared.{
  ℕ, zero, suc, ◌+◌, ◌-◌, ◌*◌, ◌≤◌, ◌==◌, ltb, ◌≡◌, refl, ◌∙◌, Bool, true, false, ◌||◌, ◌&&◌, some,
  inl, inr, Bool-cases, List, [], ◌∷◌, length, take, drop, arith, if◌then◌else◌,
}
use trixorm.Search.{Pager, Where, Database, offset_of, visible, get_total_rows, search_ids}

-- A database that holds these ids for a condition.
abbrev pub Holds : {V : Type 0} → Database V → Where V → List ℕ → Type 0
Holds db w ids =
    ((offset size : ℕ)
      → db.select_ids w.query w.parameters offset size ≡ take size (drop offset ids))
    × (db.count w.query w.parameters ≡ length ids)

length-take :
    (n : ℕ) (ids : List ℕ) → length (take n ids) ≡ (if ltb n (length ids) then n else length ids)
length-take zero [] = refl
length-take zero (x ∷ ids) = ground arith
length-take (suc n) [] = ground arith
length-take (suc n) (x ∷ ids) = ground (arith, length-take n ids)

length-drop : (n : ℕ) (ids : List ℕ) → length (drop n ids) ≡ length ids - n
length-drop zero ids = omega arith
length-drop (suc n) [] = omega arith
length-drop (suc n) (x ∷ ids) = omega (arith, length-drop n ids)

-- A page that is neither full nor empty is the last one.
total_of_page :
    (page size n o found : ℕ)
    → (ltb 1 page ≡ false → o ≡ 0)
    → found ≡ (if ltb size (n - o) then size else n - o)
    → (if found == size || (found == 0 && ltb 1 page) then n else found + o) ≡ n
total_of_page page size n o found p e = elim (Bool-cases (ltb 1 page)) [
  | inl q ↦ ground (arith, q, e)
  | inr q ↦ ground (arith, q, p q, e)
]

first_page : (page size : ℕ) → ltb 1 page ≡ false → (page - 1) * size ≡ 0
first_page page size q = let e : page - 1 ≡ 0 = ground (arith, q) in rw e (omega arith)

module _ {V : Type 0} (db : Database V) where
  -- If the database answers a condition with some list of ids and with its length, searchIDs with a
  -- count returns, for a page from 1 on, the ids of that page and the length of the whole list,
  -- although it asks for the count only if the page is full, or empty and not the first.
  pub search_ids-get_total_rows :
      (skip has : Bool) (w : Where V) (p : Pager) (ids : List ℕ)
      → 1 ≤ p.current_page
      → Holds db (visible skip has w) ids
      → search_ids db skip has w (some p) true
        ≡ (take p.page_size (drop (offset_of p) ids), length ids)
  unfolding search_ids get_total_rows
  search_ids-get_total_rows skip has w p ids one (page, count) =
      let found = length (take p.page_size (drop (offset_of p) ids)) in
      let total =
        total_of_page p.current_page p.page_size (length ids) (offset_of p) found
          (first_page p.current_page p.page_size)
          (length-take p.page_size (drop (offset_of p) ids)
            ∙ rw (length-drop (offset_of p) ids) refl) in
      rw (page (offset_of p) p.page_size, count) (rw total refl)
