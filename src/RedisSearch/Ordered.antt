-- ===== src/RedisSearch/Ordered.antt =====
-- redis_search.go: setFieldOrder counts the fields, and getFieldsOrdered lists them by their numbers.
use trixorm.Shared.{
  ℕ, suc, ◌+◌, true, false, if◌then◌else◌, Text, text_eq, none, some, ok, List, [], ◌∷◌, ◌++◌,
  length, replicate, ◌≡◌, refl, ap, ◌∙◌, arith, Bool-cases, inl, inr, append_assoc, length-append,
}
use trixorm.Maps.{Map, find, assign}
use trixorm.RedisSearch.Query.{
  RedisSearchQuery, write, write_all, set_field_order, with_order, get_fields_ordered,
}
use trixorm.RedisSearch.Log.{has_text}

-- The fields with their numbers, from `k` on.
unfoldable pub numbered : ℕ → List Text → Map ℕ
numbered k [] = []
numbered k (f ∷ fs) = (f, k) ∷ numbered (suc k) fs

length-numbered : (k : ℕ) (fs : List Text) → length (numbered k fs) ≡ length fs
unfolding numbered
length-numbered k [] = refl
length-numbered k (f ∷ fs) = ap suc (length-numbered (suc k) fs)

find-numbered-none :
    (f : Text) (k : ℕ) (fs : List Text) → has_text f fs ≡ false → find f (numbered k fs) ≡ none
unfolding numbered find
find-numbered-none f k [] h = refl
find-numbered-none f k (g ∷ fs) h = ground (arith, h, find-numbered-none f (suc k) fs)

find-numbered-some :
    (f : Text) (k : ℕ) (fs : List Text)
    → has_text f fs ≡ true
    → (n : ℕ) × (find f (numbered k fs) ≡ some n)
unfolding numbered find
find-numbered-some f k [] h = cc
find-numbered-some f k (g ∷ fs) h = elim (Bool-cases (text_eq g f)) [
  | inl e ↦ (k, rw e refl)
  | inr e ↦ let (n, i) = find-numbered-some f (suc k) fs (ground (arith, h, e)) in (n, rw e i)
]

assign-numbered :
    (f : Text) (k n : ℕ) (fs : List Text)
    → has_text f fs ≡ false
    → n ≡ k + length fs
    → assign f n (numbered k fs) ≡ numbered k (fs ++ f ∷ [])
unfolding numbered assign
assign-numbered f k n [] h e = rw e (ap (λ (j : ℕ). (f, j) ∷ []) (omega arith))
assign-numbered f k n (g ∷ fs) h e = elim (Bool-cases (text_eq g f)) [
  | inl i ↦ ground (arith, h, i)
  | inr i ↦ rw i (
      ap (λ (m : Map ℕ). (g, k) ∷ m)
        (assign-numbered f (suc k) n fs (ground (arith, h, i)) (omega (arith, e))))
]

with_order-numbered :
    (f : Text) (fs : List Text)
    → with_order f (numbered 0 fs) ≡ numbered 0 (if has_text f fs then fs else fs ++ f ∷ [])
unfolding with_order
with_order-numbered f fs = elim (Bool-cases (has_text f fs)) [
  | inl e ↦ let (n, i) = find-numbered-some f 0 fs e in rw (e, i, with_order) refl
  | inr e ↦
      rw (e, find-numbered-none f 0 fs e, with_order)
        (assign-numbered f 0 (length (numbered 0 fs)) fs e (omega (arith, length-numbered 0 fs)))
]

module _ {Float : Type 0} where
  -- A field takes the next number unless it has one.
  pub set_field_order-numbered :
      (f : Text) (fs : List Text) (q : RedisSearchQuery Float)
      → q.filters_order ≡ numbered 0 fs
      → (set_field_order f q).filters_order
        ≡ numbered 0 (if has_text f fs then fs else fs ++ f ∷ [])
  unfolding set_field_order
  set_field_order-numbered f fs q h = ap (with_order f) h ∙ with_order-numbered f fs

write_lem :
    (done : List Text) (v w : Text) (rest : List Text)
    → write (length done) v (done ++ w ∷ rest) ≡ ok (done ++ v ∷ rest)
unfolding write
write_lem [] v w rest = refl
write_lem (d ∷ done) v w rest = rw (write_lem done v w rest) refl

write_all_lem :
    (done fs : List Text)
    → write_all (numbered (length done) fs) (done ++ replicate (length fs) []) ≡ ok (done ++ fs)
unfolding write_all numbered
write_all_lem done [] = refl
write_all_lem done (f ∷ fs) =
    let e : length (done ++ f ∷ []) ≡ suc (length done) =
      omega (arith, length-append {0} done (f ∷ [])) in
    rw (write_lem done f [] (replicate (length fs) [])) (
      rw (e, append_assoc done (f ∷ []) fs, append_assoc done (f ∷ []) (replicate (length fs) []))
        at (write_all_lem (done ++ f ∷ []) fs))

module _ {Float : Type 0} where
  pub get_fields_ordered-numbered :
      (fs : List Text) (q : RedisSearchQuery Float)
      → q.filters_order ≡ numbered 0 fs
      → get_fields_ordered q ≡ ok fs
  unfolding get_fields_ordered
  get_fields_ordered-numbered fs q h = rw (h, length-numbered 0 fs) (write_all_lem [] fs)
