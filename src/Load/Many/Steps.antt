-- ===== src/Load/Many/Steps.antt =====
-- load_by_ids.go: what one round of tryByIDs leaves of the keys, and what it puts in the slice.
use trixorm.Shared.{
  ℕ, ◌<◌, ◌^◌, ◌==◌, Bool, true, false, ◌||◌, Text, Option, none, some, List, [], ◌∷◌, ◌++◌,
  get_elem?, All, ◌≡◌, refl, ap, ◌∙◌, sym, Bool-cases, inl, inr, ◌⊎◌, ==→eq, ==_self,
}
use trixorm.Host.{Host}
use trixorm.Schema.{columns}
use trixorm.Serializer.{Serializer}
use trixorm.Entity.{Row}
use trixorm.Builder.Build.{TableSchema, Orm}
use trixorm.Maps.{Map}
use trixorm.Load.{Caching, LocalValue, get_cache_key}
use trixorm.Load.Fill.{loaded_with}
use trixorm.Load.Coherence.{Rows, local_of, redis_of}
use trixorm.Load.Many.{Progress, place}
use trixorm.Load.Many.Indexed.{IsKeyed, All-append, All-split}

abbrev pub is_none : {A : Type 0} → Option A → Bool
is_none none = true
is_none (some a) = false

pub or_false : (a : Bool) → (a || false) ≡ a
or_false true = refl
or_false false = refl

or_swap : (a b d : Bool) → ((a || b) || d) ≡ (a || (b || d))
or_swap true b d = refl
or_swap false b d = refl

or_last : (a b : Bool) → ((a || b) || true) ≡ true
or_last true b = refl
or_last false true = refl
or_last false false = refl

module _ (h : Host) (s : TableSchema) (c : Caching) (rows : Rows h s) (fresh : Orm h s)
    (all : List ℕ) where
  unfoldable pub row_of : Option ℕ → Option (Row h (columns s.fields))
  row_of none = none
  row_of (some id) = rows id

  -- The row of the id at an index.
  unfoldable pub row_at : ℕ → Option (Row h (columns s.fields))
  unfolding row_of
  row_at k = row_of (get_elem? all k)

  unfoldable pub entity_at : Option (Row h (columns s.fields)) → Option (Orm h s)
  entity_at none = none
  entity_at (some row) = some (loaded_with h s row fresh)

  -- What the slice should hold at an index.
  unfoldable pub wanted : ℕ → Option (Orm h s)
  unfolding row_at entity_at
  wanted k = entity_at (row_at k)

  unfoldable pub any_missing : Map ℕ → Bool
  unfolding row_at
  any_missing [] = false
  any_missing ((key, k) ∷ m) = is_none (row_at k) || any_missing m

  -- A pair that may be set in a cache.
  pub record IsEntry {V : Type 0} (value : ℕ → V) (e : Text × V) : Type 0 where
    pub id : ℕ
    pub id_lt : id < 2 ^ 64
    pub key : e.0 ≡ get_cache_key c id
    pub value_eq : e.1 ≡ value id

  abbrev pub IsDone : Progress h s → ℕ → Type 0
  IsDone p k = p.slots k ≡ wanted k

  -- The slice holds nothing but what it should.
  pub record IsRight (p : Progress h s) : Type 0 where
    pub slots : (j : ℕ) → (p.slots j ≡ none) ⊎ (p.slots j ≡ wanted j)
    pub is_empty : p.serializer.buffer ≡ []
    pub local_set : All (IsEntry (local_of h s rows)) p.local_cache_to_set
    pub redis_set : All (IsEntry (redis_of h s rows)) p.redis_cache_to_set
    pub pending : All (IsKeyed c all) p.pending

  -- What a round over some keys makes of the progress: each key is left over or its slot is done,
  -- and an id is missing afterwards just if one was or is among these keys.
  pub record IsStep (p : Progress h s) (m : Map ℕ) (p' : Progress h s) : Type 1 where
    pub right : IsRight p'
    pub done : (j : ℕ) → IsDone p j → IsDone p' j
    pub later : (Q : ℕ → Type 0) → All (λ e. Q e.1) p'.pending → All (λ e. Q e.1) p.pending
    pub taken :
        (Q : ℕ → Type 0)
        → ((j : ℕ) → IsDone p' j → Q j)
        → All (λ e. Q e.1) p'.pending
        → All (λ e. Q e.1) m
    pub missing :
        (p'.has_missing || any_missing p'.pending)
        ≡ ((p.has_missing || any_missing p.pending) || any_missing m)

  any_missing-append : (m n : Map ℕ) → any_missing (m ++ n) ≡ (any_missing m || any_missing n)
  unfolding any_missing
  any_missing-append [] n = refl
  any_missing-append ((key, k) ∷ m) n =
      ap (λ b. is_none (row_at k) || b) (any_missing-append m n)
      ∙ sym (or_swap (is_none (row_at k)) (any_missing m) (any_missing n))

  pub IsStep-nil : (p : Progress h s) → IsRight p → IsStep p [] p
  unfolding any_missing
  IsStep-nil p g = record {
    right = g;
    done = λ j d. d;
    later = λ Q q. q;
    taken = λ Q f q. tt;
    missing = sym (or_false (p.has_missing || any_missing p.pending));
  }

  pub IsStep-cons :
      (p p1 p2 : Progress h s) (e : Text × ℕ) (m : Map ℕ)
      → IsStep p (e ∷ []) p1
      → IsStep p1 m p2
      → IsStep p (e ∷ m) p2
  unfolding any_missing
  IsStep-cons p p1 p2 e m a b = record {
    right = b.right;
    done = λ j d. b.done j (a.done j d);
    later = λ Q q. a.later Q (b.later Q q);
    taken = λ Q f q. ((a.taken Q (λ j d. f j (b.done j d)) (b.later Q q)).0, b.taken Q f q);
    missing =
        b.missing
        ∙ ap (λ t. t || any_missing m) a.missing
        ∙ or_swap (p.has_missing || any_missing p.pending) (any_missing (e ∷ [])) (any_missing m)
        ∙ ap (λ t. (p.has_missing || any_missing p.pending) || t)
            (or_swap (is_none (row_at e.1)) false (any_missing m));
  }

  -- No answer: the key is left.
  pub IsStep-left :
      (p : Progress h s) (e : Text × ℕ)
      → IsRight p
      → IsKeyed c all e
      → IsStep p (e ∷ []) (record p { pending = p.pending ++ e ∷ [] })
  IsStep-left p e g k = record {
    right = record {
      slots = g.slots;
      is_empty = g.is_empty;
      local_set = g.local_set;
      redis_set = g.redis_set;
      pending = All-append (IsKeyed c all) p.pending (e ∷ []) g.pending (k, tt);
    };
    done = λ j d. d;
    later = λ Q q. (All-split (λ (e : Text × ℕ). Q e.1) p.pending (e ∷ []) q).0;
    taken = λ Q f q. (All-split (λ (e : Text × ℕ). Q e.1) p.pending (e ∷ []) q).1;
    missing =
        ap (λ t. p.has_missing || t) (any_missing-append p.pending (e ∷ []))
        ∙ sym (or_swap p.has_missing (any_missing p.pending) (any_missing (e ∷ [])));
  }

  pub nothing_wanted :
      (p : Progress h s) (k : ℕ)
      → row_at k ≡ none
      → (p.slots k ≡ none) ⊎ (p.slots k ≡ wanted k)
      → IsDone p k
  unfolding wanted entity_at
  nothing_wanted p k n (inl e) = e ∙ sym (ap entity_at n)
  nothing_wanted p k n (inr e) = e

  -- An id that is known to have no row.
  pub IsStep-missing :
      (p : Progress h s) (e : Text × ℕ)
      → IsRight p
      → row_at e.1 ≡ none
      → IsStep p (e ∷ []) (record p { has_missing = true })
  unfolding any_missing
  IsStep-missing p e g n = record {
    right = record {
      slots = g.slots;
      is_empty = g.is_empty;
      local_set = g.local_set;
      redis_set = g.redis_set;
      pending = g.pending;
    };
    done = λ j d. d;
    later = λ Q q. q;
    taken = λ Q f q. (f e.1 (nothing_wanted p e.1 n (g.slots e.1)), tt);
    missing = rw n (sym (or_last p.has_missing (any_missing p.pending)));
  }

  pub place-wanted :
      (k : ℕ) (row : Row h (columns s.fields)) (slots : ℕ → Option (Orm h s)) (j : ℕ)
      → row_at k ≡ some row
      → (k == j) ≡ true
      → place k (loaded_with h s row fresh) slots j ≡ wanted j
  unfolding wanted entity_at
  place-wanted k row slots j r e =
      let same : k ≡ j = ==→eq k j e in rw e (sym (ap entity_at r) ∙ ap wanted same)

  place_right :
      (k : ℕ) (row : Row h (columns s.fields)) (slots : ℕ → Option (Orm h s)) (j : ℕ)
      → row_at k ≡ some row
      → (slots j ≡ none) ⊎ (slots j ≡ wanted j)
      → (place k (loaded_with h s row fresh) slots j ≡ none)
        ⊎ (place k (loaded_with h s row fresh) slots j ≡ wanted j)
  place_right k row slots j r g = elim (Bool-cases (k == j)) [
    | inl e ↦ inr (place-wanted k row slots j r e)
    | inr e ↦ rw e g
  ]

  place_done :
      (k : ℕ) (row : Row h (columns s.fields)) (slots : ℕ → Option (Orm h s)) (j : ℕ)
      → row_at k ≡ some row
      → slots j ≡ wanted j
      → place k (loaded_with h s row fresh) slots j ≡ wanted j
  place_done k row slots j r g = elim (Bool-cases (k == j)) [
    | inl e ↦ place-wanted k row slots j r e
    | inr e ↦ rw e g
  ]

  -- A row that was found: the entity is put in its slot.
  pub IsStep-found :
      (p : Progress h s) (e : Text × ℕ) (row : Row h (columns s.fields)) (z : Serializer)
      (lset : List (Text × LocalValue)) (rset : List (Text × Text))
      → IsRight p
      → row_at e.1 ≡ some row
      → z.buffer ≡ []
      → All (IsEntry (local_of h s rows)) lset
      → All (IsEntry (redis_of h s rows)) rset
      → IsStep p (e ∷ []) (record p {
        slots = place e.1 (loaded_with h s row fresh) p.slots;
        serializer = z;
        local_cache_to_set = lset;
        redis_cache_to_set = rset;
      })
  unfolding any_missing
  IsStep-found p e row z lset rset g r b ls rs = record {
    right = record {
      slots = λ j. place_right e.1 row p.slots j r (g.slots j);
      is_empty = b;
      local_set = ls;
      redis_set = rs;
      pending = g.pending;
    };
    done = λ j d. place_done e.1 row p.slots j r d;
    later = λ Q q. q;
    taken = λ Q f q. (f e.1 (place-wanted e.1 row p.slots e.1 r (==_self e.1)), tt);
    missing = rw r (sym (or_false (p.has_missing || any_missing p.pending)));
  }
