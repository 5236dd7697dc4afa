-- ===== src/Cache.antt =====
-- local_cache.go and redis_cache.go: what the ORM relies on where it keeps entities in a cache.
pub mod Local
pub mod Shards
pub mod Touching
use trixorm.Shared.{ℕ, ◌≡◌, ◌≢◌, ◌⊎◌, Text, Option, none, some, List, [], ◌∷◌}

-- `set` takes a time to live in seconds, 0 where there is none.
pub record Cache (V : Type 0) : Type 1 where
  pub State : Type 0
  pub get : Text → State → Option V × State
  pub set : ℕ → Text → V → State → State
  pub remove : Text → State → State
  pub clear : State → State

-- An entry is as it was, or it is gone.
abbrev pub Fades : {V : Type 0} → Option V → Option V → Type 0
Fades after before = (after ≡ before) ⊎ (after ≡ none)

abbrev pub see : {V : Type 0} → (c : Cache V) → Text → c.State → Option V
see c k s = (c.get k s).0

-- A cache returns what was set last, and it may lose other entries at any time.
pub record IsCache {V : Type 0} (c : Cache V) : Type 0 where
  pub get_Fades : (k j : Text) (s : c.State) → Fades (see c j (c.get k s).1) (see c j s)
  pub set_same : (t : ℕ) (k : Text) (v : V) (s : c.State) → Fades (see c k (c.set t k v s)) (some v)
  pub set_Fades :
      (t : ℕ) (k j : Text) (v : V) (s : c.State)
      → k ≢ j
      → Fades (see c j (c.set t k v s)) (see c j s)
  pub remove_same : (k : Text) (s : c.State) → see c k (c.remove k s) ≡ none
  pub remove_Fades : (k j : Text) (s : c.State) → k ≢ j → Fades (see c j (c.remove k s)) (see c j s)
  pub clear_none : (j : Text) (s : c.State) → see c j (c.clear s) ≡ none

module _ {V : Type 0} (c : Cache V) where
  -- MGet, and the loops over the other methods.
  unfoldable pub get_many : List Text → c.State → List (Option V) × c.State
  get_many [] s = ([], s)
  get_many (k ∷ ks) s = let (v, s1) = c.get k s in let (vs, s2) = get_many ks s1 in (v ∷ vs, s2)

  unfoldable pub set_many : List (Text × V) → c.State → c.State
  set_many [] s = s
  set_many ((k, v) ∷ kvs) s = set_many kvs (c.set 0 k v s)

  unfoldable pub remove_many : List Text → c.State → c.State
  remove_many [] s = s
  remove_many (k ∷ ks) s = remove_many ks (c.remove k s)
