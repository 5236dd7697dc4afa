-- ===== src/Flusher/Tracking.antt =====
-- flusher.go: Track, which keeps a list of entities without duplicates. An entity is its address.
use trixorm.Shared.{
  ℕ, ◌+◌, ◌==◌, ==→eq, ◌≤◌, ◌≡◌, refl, ap, ◌∙◌, Bool, true, false, ◌||◌, if◌then◌else◌, Result, ok,
  panic, then_do, track_limit, not_registered, if_ok, All, List, [], ◌∷◌, ◌++◌, length, arith,
  Bool-cases, inl, inr,
}
use mathlib.Core.Path.{subst}
use trixorm.Flusher.Loop.{then_ok, ok_inj}

-- A nil slice of entities is empty.
pub record Tracker : Type 0 where
  pub tracked_entities : List ℕ
  pub tracked_entities_counter : ℕ

unfoldable pub contains : ℕ → List ℕ → Bool
contains x [] = false
contains x (y ∷ ys) = y == x || contains x ys

-- The part of the loop of Track behind initIfNeeded.
unfoldable pub add_tracked : ℕ → Tracker → Result Tracker
unfolding contains
add_tracked e t =
    let more = t.tracked_entities_counter + 1 in
    if contains e t.tracked_entities
    then ok t
    else if more == 10001
    then panic track_limit
    else ok (record {
      tracked_entities = t.tracked_entities ++ e ∷ [];
      tracked_entities_counter = more;
    })

-- One round of the loop. initIfNeeded panics for an entity that is neither initialised nor of a type
-- that the registry knows.
unfoldable pub track_one : (ℕ → Bool) → ℕ → Tracker → Result Tracker
unfolding add_tracked
track_one is_registered e t = if is_registered e then add_tracked e t else panic not_registered

-- Track
unfoldable pub track : (ℕ → Bool) → List ℕ → Tracker → Result Tracker
unfolding track_one
track is_registered [] t = ok t
track is_registered (e ∷ es) t = then_do (track_one is_registered e t) (track is_registered es)

abbrev pub AreDistinct : List ℕ → Type 0
AreDistinct [] = Unit {0}
AreDistinct (x ∷ xs) = (contains x xs ≡ false) × AreDistinct xs

pub record IsTracker (t : Tracker) : Type 0 where
  pub distinct : AreDistinct t.tracked_entities
  pub bounded : t.tracked_entities_counter ≤ 10000

or_false : (b : Bool) → b ≡ (b || false)
or_false true = refl
or_false false = refl

not_full : (n : ℕ) → n + 1 ≤ 10000 → (n + 1 == 10001) ≡ false
not_full n l = ground (arith, l)

nothing_more : (y : ℕ) (ys : List ℕ) → contains y ys ≡ (contains y ys || contains y [])
unfolding contains
nothing_more y ys = or_false (contains y ys)

first_too :
    (z e : ℕ) (es : List ℕ) (b : Bool)
    → ((b || e == z) || contains z es) ≡ (b || contains z (e ∷ es))
unfolding contains
first_too z e es true = refl
first_too z e es false = refl

contains-append : (x : ℕ) (a b : List ℕ) → contains x (a ++ b) ≡ (contains x a || contains x b)
unfolding contains
contains-append x [] b = refl
contains-append x (y ∷ a) b = ground (arith, contains-append x a b)

AreDistinct-append :
    (e : ℕ) (xs : List ℕ) → contains e xs ≡ false → AreDistinct xs → AreDistinct (xs ++ e ∷ [])
unfolding contains
AreDistinct-append e [] n d = (refl, tt)
AreDistinct-append e (x ∷ xs) n (d, ds) = (
  contains-append x xs (e ∷ []) ∙ ground (arith, d, n),
  AreDistinct-append e xs (ground (arith, n)) ds,
)

-- What one entity does.
abbrev Step : ℕ → Tracker → Tracker → Type 0
Step e t t' =
    (IsTracker t → IsTracker t')
    × ((x : ℕ) → contains x t'.tracked_entities ≡ (contains x t.tracked_entities || e == x))

already : (e x : ℕ) (xs : List ℕ) → contains e xs ≡ true → contains x xs ≡ (contains x xs || e == x)
already e x xs h = elim (Bool-cases (e == x)) [
  | inl q ↦
      rw q (subst (λ (y : ℕ). contains y xs ≡ (contains y xs || true)) (==→eq e x q) (rw h refl))
  | inr q ↦ rw q (or_false (contains x xs))
]

appended : (e x : ℕ) (xs : List ℕ) → contains x (xs ++ e ∷ []) ≡ (contains x xs || e == x)
unfolding contains
appended e x xs = contains-append x xs (e ∷ []) ∙ ground arith

room :
    (t : Tracker)
    → IsTracker t
    → (t.tracked_entities_counter + 1 == 10001) ≡ false
    → t.tracked_entities_counter + 1 ≤ 10000
room t x q = let b = x.bounded in ground (arith, q, b)

-- The two ways in which an entity is accepted.
accepted :
    (e : ℕ) (t : Tracker) (seen full : Bool) (t' : Tracker)
    → contains e t.tracked_entities ≡ seen
    → (t.tracked_entities_counter + 1 == 10001) ≡ full
    → (if seen
        then ok t
        else if full
        then panic track_limit
        else ok (record {
          tracked_entities = t.tracked_entities ++ e ∷ [];
          tracked_entities_counter = t.tracked_entities_counter + 1;
        }))
      ≡ ok t'
    → Step e t t'
accepted e t true full t' s q f =
    subst (Step e t) (ok_inj t t' f) (λ x. x, λ x. already e x t.tracked_entities s)
accepted e t false true t' s q f = cc
accepted e t false false t' s q f = subst (Step e t) (ok_inj _ t' f) (
  λ x. record {
    distinct = AreDistinct-append e t.tracked_entities s x.distinct;
    bounded = room t x q;
  },
  λ x. appended e x t.tracked_entities,
)

track_one-Step :
    (is_registered : ℕ → Bool) (e : ℕ) (t t' : Tracker)
    → track_one is_registered e t ≡ ok t'
    → Step e t t'
unfolding track_one add_tracked
track_one-Step is_registered e t t' f =
    let (known, g) = if_ok (is_registered e) (add_tracked e t) not_registered t' f in
    accepted e t _ _ t' refl refl g

-- If a flusher's list of entities has no duplicates and its counter is at most 10000, then after a
-- Track that returns this is still so, and an entity is in the list just if it was there before or
-- was given to Track.
pub track-IsTracker :
    (is_registered : ℕ → Bool) (es : List ℕ) (t t' : Tracker)
    → IsTracker t
    → track is_registered es t ≡ ok t'
    → IsTracker t'
      × ((x : ℕ)
          → contains x t'.tracked_entities ≡ (contains x t.tracked_entities || contains x es))
unfolding track
track-IsTracker is_registered [] t t' x f =
    subst
      (λ (u : Tracker).
        IsTracker u
        × ((y : ℕ)
            → contains y u.tracked_entities ≡ (contains y t.tracked_entities || contains y [])))
      (ok_inj t t' f) (x, λ y. nothing_more y t.tracked_entities)
track-IsTracker is_registered (e ∷ es) t t' x f =
    let (t1, e1, e2) = then_ok (track_one is_registered e t) (track is_registered es) t' f in
    let (keeps, has) = track_one-Step is_registered e t t1 e1 in
    let (y, all) = track-IsTracker is_registered es t1 t' (keeps x) e2 in
    (
      y,
      λ z.
          all z
          ∙ ap (λ (b : Bool). b || contains z es) (has z)
          ∙ first_too z e es (contains z t.tracked_entities),
    )

fits :
    (e : ℕ) (t : Tracker)
    → t.tracked_entities_counter + 1 ≤ 10000
    → (t' : Tracker) × (add_tracked e t ≡ ok t')
      × (t'.tracked_entities_counter ≤ t.tracked_entities_counter + 1)
unfolding add_tracked
fits e t l = elim (Bool-cases (contains e t.tracked_entities)) [
  | inl q ↦ (t, rw q refl, omega arith)
  | inr q ↦ (
    record {
      tracked_entities = t.tracked_entities ++ e ∷ [];
      tracked_entities_counter = t.tracked_entities_counter + 1;
    },
    rw (q, not_full t.tracked_entities_counter l) refl,
    omega arith,
  )
]

-- Track returns without a panic if each entity given to it is registered, and the counter and the
-- number of these entities are together at most 10000.
pub track-IsTracker_room :
    (is_registered : ℕ → Bool) (es : List ℕ) (t : Tracker)
    → All (λ e. is_registered e ≡ true) es
    → t.tracked_entities_counter + length es ≤ 10000
    → (t' : Tracker) × (track is_registered es t ≡ ok t')
unfolding track track_one
track-IsTracker_room is_registered [] t known l = (t, refl)
track-IsTracker_room is_registered (e ∷ es) t (k, known) l =
    let (t1, f, m) = fits e t (omega arith) in
    let (t2, g) = track-IsTracker_room is_registered es t1 known (omega (arith, l, m)) in
    (t2, rw (k, f) g)
