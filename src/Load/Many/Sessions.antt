-- ===== src/Load/Many/Sessions.antt =====
-- load_by_ids.go: the rounds of tryByIDs on caches that agree with the database.
use trixorm.Shared.{
  Bool-cases, inl, inr, ◌&&◌, ℕ, ltb, length, arith, ◌<◌, ◌^◌, Bool, true, false, ◌||◌, Text, none,
  some, ok, List, [], ◌∷◌, All, ◌≡◌, refl, ap, ◌∙◌, sym,
}
use trixorm.Int64.{ℤ}
use trixorm.Host.{Host, IsLawful}
use trixorm.Schema.{columns}
use trixorm.Entity.{Row}
use trixorm.Entity.Forms.{IsStorableRow}
use trixorm.Builder.Build.{TableSchema, Orm}
use trixorm.Maps.{Map}
use trixorm.Cache.{Cache, IsCache, get_many}
use trixorm.Load.{Caching, LocalValue, uses_local}
use trixorm.Load.Coherence.{Rows, local_of_row, redis_of_row}
use trixorm.Load.Many.{Progress, keys_of}
use trixorm.Load.Many.Indexed.{IsKeyed}
use trixorm.Load.Many.Steps.{IsRight}
use trixorm.Load.Many.Steps.{any_missing, IsDone}
use trixorm.Load.{Session}
use trixorm.Load.Coherence.{IsCoherent}
use trixorm.Load.Many.{ask_local_many, ask_redis_many}
use trixorm.Load.Many.Rounds.{get_many-AreAnswers}
use trixorm.Load.Many.Steps.{or_false}
use trixorm.Load.Many.Loops.{take_all_local-IsStep, take_all_redis-IsStep}

nothing_left : (m : Map ℕ) → ltb 0 (length m) ≡ false → m ≡ []
nothing_left [] e = refl
nothing_left (x ∷ m) e = let f : true ≡ false = sym (ground arith) ∙ e in cc

module _ (h : Host) (law : IsLawful h) (s : TableSchema) (disabled : Bool) (unm : Text → List ℕ)
    (offset : ℤ) (fresh : Orm h s) (c : Caching) (rows : Rows h s) (all : List ℕ)
    (local : Cache LocalValue) (lc : IsCache local) (redis : Cache Text) (rc : IsCache redis)
    (small : s.structure_hash < 2 ^ 64)
    (storable : (i : ℕ)
      → i < 2 ^ 64
      → (row : Row h (columns s.fields)) → rows i ≡ some row
      → IsStorableRow h (columns s.fields) row) where
  abbrev pub Coherent : Session local redis → Type 0
  Coherent = IsCoherent h s c local redis lc rc rows

  abbrev Right : Progress h s → Type 0
  Right = IsRight h s c rows fresh all

  abbrev pub Done : Progress h s → ℕ → Type 0
  Done = IsDone h s c rows fresh all

  abbrev pub missing_in : Map ℕ → Bool
  missing_in = any_missing h s c rows fresh all

  -- Of the keys `m`, each is left over or its slot is done.
  pub record IsRound (m : Map ℕ) (p : Progress h s) (w : Session local redis) : Type 1 where
    pub right : Right p
    pub taken :
        (Q : ℕ → Type 0)
        → ((j : ℕ) → Done p j → Q j)
        → All (λ e. Q e.1) p.pending
        → All (λ e. Q e.1) m
    pub missing : (p.has_missing || missing_in p.pending) ≡ missing_in m
    pub coherent : Coherent w

  abbrev start : Session local redis → Progress h s
  start w = record {
    slots = λ j. none;
    has_missing = false;
    serializer = w.serializer;
    local_cache_to_set = [];
    redis_cache_to_set = [];
    pending = [];
  }

  start-IsRight : (w : Session local redis) → Coherent w → Right (start w)
  start-IsRight w g = record {
    slots = λ j. inl refl;
    is_empty = g.is_empty;
    local_set = tt;
    redis_set = tt;
    pending = tt;
  }

  pub ask_local_many-IsRound :
      (m : Map ℕ) (w : Session local redis)
      → All (IsKeyed c all) m
      → Coherent w
      → (p : Progress h s) × (w1 : Session local redis) × (ask_local_many h s disabled unm offset
            fresh c local redis m w
          ≡ ok (p, w1))
        × IsRound m p w1
  unfolding ask_local_many any_missing
  ask_local_many-IsRound m w ks g = elim (Bool-cases (uses_local c)) [
    | inl e ↦
        let (answers, agrees) =
          get_many-AreAnswers h s c rows fresh all local lc (local_of_row h s) m w.local_state ks
            g.local_agrees in
        let in_cache = get_many local (keys_of m) w.local_state in
        let (p, f, step) =
          take_all_local-IsStep h law s disabled unm offset fresh c rows all small storable m
            in_cache.0 (start w) ks (start-IsRight w g) answers in
        (
          p,
          record w { local_state = in_cache.1 },
          rw (e, f) refl,
          record {
            right = step.right;
            taken = step.taken;
            missing = step.missing;
            coherent = record {
              local_agrees = agrees;
              redis_agrees = g.redis_agrees;
              is_empty = g.is_empty;
            };
          },
        )
    | inr e ↦ (
      record (start w) { pending = m },
      w,
      rw e refl,
      record {
        right = record {
          slots = λ j. inl refl;
          is_empty = g.is_empty;
          local_set = tt;
          redis_set = tt;
          pending = ks;
        };
        taken = λ Q f q. q;
        missing = refl;
        coherent = g;
      },
    )
  ]

  pub ask_redis_many-IsRound :
      (m : Map ℕ) (p : Progress h s) (w : Session local redis)
      → IsRound m p w
      → (p1 : Progress h s) × (w1 : Session local redis) × (ask_redis_many h s disabled unm offset
            fresh c local redis
            (p, w)
          ≡ ok (p1, w1))
        × IsRound m p1 w1
  unfolding ask_redis_many any_missing
  ask_redis_many-IsRound m p w g =
      elim (Bool-cases (c.has_redis_cache && ltb 0 (length p.pending))) [
        | inl e ↦
            let (answers, agrees) =
              get_many-AreAnswers h s c rows fresh all redis rc (redis_of_row h s) p.pending
                w.redis_state g.right.pending g.coherent.redis_agrees in
            let in_cache = get_many redis (keys_of p.pending) w.redis_state in
            let (p1, f, step) =
              take_all_redis-IsStep h law s disabled unm offset fresh c rows all small storable
                (uses_local c) p.pending in_cache.0 (record p { pending = [] }) g.right.pending
                (record {
                  slots = g.right.slots;
                  is_empty = g.right.is_empty;
                  local_set = g.right.local_set;
                  redis_set = g.right.redis_set;
                  pending = tt;
                })
                answers in
            (
              p1,
              record w { redis_state = in_cache.1 },
              rw (e, f) refl,
              record {
                right = step.right;
                taken = λ Q d q. g.taken Q (λ j x. d j (step.done j x)) (step.taken Q d q);
                missing =
                    step.missing
                    ∙ ap (λ b. b || missing_in p.pending) (or_false p.has_missing)
                    ∙ g.missing;
                coherent = record {
                  local_agrees = g.coherent.local_agrees;
                  redis_agrees = agrees;
                  is_empty = g.coherent.is_empty;
                };
              },
            )
        | inr e ↦ (p, w, rw e refl, g)
      ]
