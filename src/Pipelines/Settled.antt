-- ===== src/Pipelines/Settled.antt =====
-- redis_flusher.go: an entry of a Redis pool after Flush.
use trixorm.Shared.{
  Bool, true, false, ◌||◌, ◌≡◌, refl, sym, ◌⊎◌, inl, inr, Text, text_eq, if◌then◌else◌, List, [],
  ◌∷◌, ◌++◌, map, Option, some,
}
use mathlib.Core.Path.{subst}
use trixorm.Maps.{Map, find}
use trixorm.Cache.{Cache, IsCache, remove_many}
use trixorm.Cache.Touching.{
  Among, AmongKeys, Permitted, IsGood, IsGood-Fades, IsGood-put, IsGood-put_same,
  IsGood-remove_many,
}
use trixorm.Pipelines.{
  Commands, Pipelines, Command, del_keys, h_set_key, set_key, x_add, deletes_of, h_sets_of, sets_of,
  events_of, requests, flush_single, flush_caches, flush_events, flush, several, or_none,
  commands_of,
}
use trixorm.Pipelines.Effects.{
  Others, IsOthers, run_commands, run_requests, run_requests-append, run_requests-requests,
}

module _ (P : Text → Text → Type 0) where
  -- Every value that the commands set is permitted.
  abbrev pub PermittedSets : List Command → Type 0
  PermittedSets [] = Unit {0}
  PermittedSets (set_key k v ∷ cs) = P k v × PermittedSets cs
  PermittedSets (_ ∷ cs) = PermittedSets cs

  abbrev pub PermittedPools : Pipelines → Type 0
  PermittedPools [] = Unit {0}
  PermittedPools ((pool, c) ∷ p) = Permitted P c.sets × PermittedPools p

  PermittedSets-append :
      (a b : List Command) → PermittedSets a → PermittedSets b → PermittedSets (a ++ b)
  PermittedSets-append [] b p q = q
  PermittedSets-append (set_key k v ∷ a) b (p, ps) q = (p, PermittedSets-append a b ps q)
  PermittedSets-append (del_keys ks ∷ a) b p q = PermittedSets-append a b p q
  PermittedSets-append (h_set_key k vs ∷ a) b p q = PermittedSets-append a b p q
  PermittedSets-append (x_add k e ∷ a) b p q = PermittedSets-append a b p q

  from_sets : (m : Map Text) → Permitted P m → PermittedSets (sets_of m)
  unfolding sets_of
  from_sets [] p = tt
  from_sets ((k, v) ∷ m) (p, ps) = (p, from_sets m ps)

  from_deletes : (c : Commands) → PermittedSets (deletes_of c)
  unfolding deletes_of
  from_deletes c =
      elim c.deletes
        as (λ ds.
          PermittedSets
            (elim ds as (λ _. List Command) [ [] ↦ [] | k ∷ keys ↦ del_keys (k ∷ keys) ∷ [] ])) [
              | [] ↦ tt
              | k ∷ keys ↦ tt
            ]

  from_h_sets : (m : Map (List Text)) → PermittedSets (h_sets_of m)
  unfolding h_sets_of
  from_h_sets [] = tt
  from_h_sets ((k, vs) ∷ m) = from_h_sets m

  from_stream : (stream : Text) (es : List (List Text)) → PermittedSets (map (x_add stream) es)
  from_stream stream [] = tt
  from_stream stream (e ∷ es) = from_stream stream es

  from_events : (m : Map (List (List Text))) → PermittedSets (events_of m)
  unfolding events_of
  from_events [] = tt
  from_events ((stream, es) ∷ m) =
      PermittedSets-append (map (x_add stream) es) (events_of m) (from_stream stream es)
        (from_events m)

-- The key is deleted or set by the commands.
abbrev Touched : Text → List Command → Type 0
Touched key [] = ⊥
Touched key (del_keys ks ∷ cs) = Among key ks ⊎ Touched key cs
Touched key (set_key k v ∷ cs) = (k ≡ key) ⊎ Touched key cs
Touched key (_ ∷ cs) = Touched key cs

Touched-left : (key : Text) (a b : List Command) → Touched key a → Touched key (a ++ b)
Touched-left key [] b t = absurd t
Touched-left key (del_keys ks ∷ a) b (inl t) = inl t
Touched-left key (del_keys ks ∷ a) b (inr t) = inr (Touched-left key a b t)
Touched-left key (set_key k v ∷ a) b (inl t) = inl t
Touched-left key (set_key k v ∷ a) b (inr t) = inr (Touched-left key a b t)
Touched-left key (h_set_key k vs ∷ a) b t = Touched-left key a b t
Touched-left key (x_add k e ∷ a) b t = Touched-left key a b t

Touched-right : (key : Text) (a b : List Command) → Touched key b → Touched key (a ++ b)
Touched-right key [] b t = t
Touched-right key (del_keys ks ∷ a) b t = inr (Touched-right key a b t)
Touched-right key (set_key k v ∷ a) b t = inr (Touched-right key a b t)
Touched-right key (h_set_key k vs ∷ a) b t = Touched-right key a b t
Touched-right key (x_add k e ∷ a) b t = Touched-right key a b t

-- A pool has to delete or to set the key.
abbrev pub Claims : Text → Commands → Type 0
Claims key c = Among key c.deletes ⊎ AmongKeys key c.sets

in_deletes : (key : Text) (c : Commands) → Among key c.deletes → Touched key (deletes_of c)
unfolding deletes_of
in_deletes key c =
    elim c.deletes
      as (λ ds.
        Among key ds
        → Touched key
            (elim ds as (λ _. List Command) [ [] ↦ [] | k ∷ keys ↦ del_keys (k ∷ keys) ∷ [] ])) [
              | [] ↦ λ m. absurd m
              | k ∷ keys ↦ λ m. inl m
            ]

in_sets : (key : Text) (m : Map Text) → AmongKeys key m → Touched key (sets_of m)
unfolding sets_of
in_sets key [] t = absurd t
in_sets key ((k, v) ∷ m) (inl e) = inl e
in_sets key ((k, v) ∷ m) (inr t) = inr (in_sets key m t)

in_single :
    (key : Text) (c : Commands) (middle : List Command)
    → Claims key c
    → Touched key (deletes_of c ++ (middle ++ sets_of c.sets))
in_single key c middle (inl m) =
    Touched-left key (deletes_of c) (middle ++ sets_of c.sets) (in_deletes key c m)
in_single key c middle (inr m) =
    Touched-right key (deletes_of c) (middle ++ sets_of c.sets)
      (Touched-right key middle (sets_of c.sets) (in_sets key c.sets m))

in_single_events :
    (key : Text) (c : Commands)
    → Claims key c
    → Touched key (deletes_of c ++ (h_sets_of c.h_sets ++ (events_of c.events ++ sets_of c.sets)))
in_single_events key c (inl m) =
    Touched-left key (deletes_of c) (h_sets_of c.h_sets ++ (events_of c.events ++ sets_of c.sets))
      (in_deletes key c m)
in_single_events key c (inr m) =
    Touched-right key (deletes_of c) (h_sets_of c.h_sets ++ (events_of c.events ++ sets_of c.sets))
      (Touched-right key (h_sets_of c.h_sets) (events_of c.events ++ sets_of c.sets)
        (Touched-right key (events_of c.events) (sets_of c.sets) (in_sets key c.sets m)))

-- The same, in the order of the pools.
abbrev Claimed : Text → Text → Pipelines → Type 0
Claimed code key [] = ⊥
Claimed code key ((pool, c) ∷ p) = ((text_eq pool code ≡ true) × Claims key c) ⊎ Claimed code key p

either_pool :
    (b : Bool) (key : Text) (c : Commands) (rest : Option Commands)
    → Claims key (or_none (if b then some c else rest))
    → ((b ≡ true) × Claims key c) ⊎ Claims key (or_none rest)
either_pool true key c rest t = inl (refl, t)
either_pool false key c rest t = inr t

Claims-Claimed :
    (code key : Text) (p : Pipelines) → Claims key (commands_of code p) → Claimed code key p
unfolding find
Claims-Claimed code key [] (inl t) = absurd t
Claims-Claimed code key [] (inr t) = absurd t
Claims-Claimed code key ((pool, c) ∷ p) t =
    elim (either_pool (text_eq pool code) key c (find code p) t) [
      | inl m ↦ inl m
      | inr m ↦ inr (Claims-Claimed code key p m)
    ]

module _ (c : Cache Text) (law : IsCache c) (o : Others c) (olaw : IsOthers o)
    (P : Text → Text → Type 0) (key : Text) where
  pub IsGood-run_commands :
      (cs : List Command) (s : c.State)
      → PermittedSets P cs
      → Touched key cs ⊎ IsGood c law P key s
      → IsGood c law P key (run_commands c o cs s)
  unfolding run_commands
  IsGood-run_commands [] s p (inl t) = absurd t
  IsGood-run_commands [] s p (inr g) = g
  IsGood-run_commands (del_keys ks ∷ cs) s p (inl (inl t)) =
      IsGood-run_commands cs (remove_many c ks s) p
        (inr (IsGood-remove_many c law P key ks s (inl t)))
  IsGood-run_commands (del_keys ks ∷ cs) s p (inl (inr t)) =
      IsGood-run_commands cs (remove_many c ks s) p (inl t)
  IsGood-run_commands (del_keys ks ∷ cs) s p (inr g) =
      IsGood-run_commands cs (remove_many c ks s) p
        (inr (IsGood-remove_many c law P key ks s (inr g)))
  IsGood-run_commands (set_key k v ∷ cs) s (p, ps) (inl (inl e)) =
      IsGood-run_commands cs (c.set 0 k v s) ps (
        inr (
          subst (λ (j : Text). IsGood c law P key (c.set 0 j v s)) (sym e)
            (IsGood-put_same c law P key 0 v s (subst (λ (j : Text). P j v) e p))))
  IsGood-run_commands (set_key k v ∷ cs) s (p, ps) (inl (inr t)) =
      IsGood-run_commands cs (c.set 0 k v s) ps (inl t)
  IsGood-run_commands (set_key k v ∷ cs) s (p, ps) (inr g) =
      IsGood-run_commands cs (c.set 0 k v s) ps (inr (IsGood-put c law P key 0 k v s p g))
  IsGood-run_commands (h_set_key k vs ∷ cs) s p (inl t) =
      IsGood-run_commands cs (o.run_h_set k vs s) p (inl t)
  IsGood-run_commands (h_set_key k vs ∷ cs) s p (inr g) =
      IsGood-run_commands cs (o.run_h_set k vs s) p
        (inr (IsGood-Fades c law P key s (o.run_h_set k vs s) (olaw.h_set_Fades k key vs s) g))
  IsGood-run_commands (x_add k e ∷ cs) s p (inl t) =
      IsGood-run_commands cs (o.run_x_add k e s) p (inl t)
  IsGood-run_commands (x_add k e ∷ cs) s p (inr g) =
      IsGood-run_commands cs (o.run_x_add k e s) p
        (inr (IsGood-Fades c law P key s (o.run_x_add k e s) (olaw.x_add_Fades k key e s) g))

  chosen :
      (b : Bool) (cs : List Command) (s : c.State)
      → PermittedSets P cs
      → ((b ≡ true) × Touched key cs) ⊎ IsGood c law P key s
      → IsGood c law P key (if b then run_commands c o cs s else s)
  chosen true cs s p (inl (e, t)) = IsGood-run_commands cs s p (inl t)
  chosen true cs s p (inr g) = IsGood-run_commands cs s p (inr g)
  chosen false cs s p (inl (e, t)) = cc
  chosen false cs s p (inr g) = g

  IsGood-requests :
      (b : Bool) (code pool : Text) (cs : List Command) (s : c.State)
      → PermittedSets P cs
      → ((text_eq pool code ≡ true) × Touched key cs) ⊎ IsGood c law P key s
      → IsGood c law P key (run_requests c o code (requests b pool cs) s)
  IsGood-requests b code pool cs s p t =
      subst (IsGood c law P key) (sym (run_requests-requests c o b code pool cs s))
        (chosen (text_eq pool code) cs s p t)

  IsGood-flush_caches :
      (code : Text) (p : Pipelines) (s : c.State)
      → PermittedPools P p
      → Claimed code key p ⊎ IsGood c law P key s
      → IsGood c law P key (run_requests c o code (flush_caches p) s)
  unfolding flush_caches run_requests
  IsGood-flush_caches code [] s p (inl t) = absurd t
  IsGood-flush_caches code [] s p (inr g) = g
  IsGood-flush_caches code ((pool, d) ∷ p) s (q, qs) t =
      let batched = d.use_pool || several d.diffs || several d.h_sets || several d.sets in
      let cs = deletes_of d ++ (h_sets_of d.h_sets ++ sets_of d.sets) in
      let ok_sets =
        PermittedSets-append P (deletes_of d) (h_sets_of d.h_sets ++ sets_of d.sets)
          (from_deletes P d)
          (PermittedSets-append P (h_sets_of d.h_sets) (sets_of d.sets) (from_h_sets P d.h_sets)
            (from_sets P d.sets q)) in
      subst (IsGood c law P key)
        (sym (run_requests-append c o code (requests batched pool cs) (flush_caches p) s))
        (IsGood-flush_caches code p (run_requests c o code (requests batched pool cs) s) qs
          (elim t [
            | inl (inl (e, m)) ↦ inr (
                IsGood-requests batched code pool cs s ok_sets
                  (inl (e, in_single key d (h_sets_of d.h_sets) m)))
            | inl (inr m) ↦ inl m
            | inr g ↦ inr (IsGood-requests batched code pool cs s ok_sets (inr g))
          ]))

  IsGood-flush_events :
      (code : Text) (p : Pipelines) (s : c.State)
      → IsGood c law P key s
      → IsGood c law P key (run_requests c o code (flush_events p) s)
  unfolding flush_events run_requests
  IsGood-flush_events code [] s g = g
  IsGood-flush_events code ((pool, d) ∷ p) s g =
      subst (IsGood c law P key)
        (sym (
          run_requests-append c o code (requests (several d.events) pool (events_of d.events))
            (flush_events p) s))
        (IsGood-flush_events code p _ (
          IsGood-requests (several d.events) code pool (events_of d.events) s
            (from_events P d.events) (inr g)))

  -- A key that the pool deletes or sets, or that was right before, is right after Flush.
  pub IsGood-flush :
      (code : Text) (p : Pipelines) (s : c.State)
      → PermittedPools P p
      → Claims key (commands_of code p) ⊎ IsGood c law P key s
      → IsGood c law P key (run_requests c o code (flush p) s)
  unfolding flush flush_single run_requests find
  IsGood-flush code [] s q (inl (inl t)) = absurd t
  IsGood-flush code [] s q (inl (inr t)) = absurd t
  IsGood-flush code [] s q (inr g) = g
  IsGood-flush code ((pool, d) ∷ []) s (q, qs) t =
      IsGood-requests
        (d.use_pool || several d.diffs || several d.events || several d.h_sets || several d.sets)
        code pool (deletes_of d ++ (h_sets_of d.h_sets ++ (events_of d.events ++ sets_of d.sets))) s
        (PermittedSets-append P (deletes_of d)
          (h_sets_of d.h_sets ++ (events_of d.events ++ sets_of d.sets)) (from_deletes P d)
          (PermittedSets-append P (h_sets_of d.h_sets) (events_of d.events ++ sets_of d.sets)
            (from_h_sets P d.h_sets)
            (PermittedSets-append P (events_of d.events) (sets_of d.sets) (from_events P d.events)
              (from_sets P d.sets q))))
        (elim t [
          | inl m ↦ elim (Claims-Claimed code key ((pool, d) ∷ []) m) [
            | inl (e, n) ↦ inl (e, in_single_events key d n)
            | inr n ↦ absurd n
          ]
          | inr g ↦ inr g
        ])
  IsGood-flush code (x ∷ y ∷ p) s q t =
      subst (IsGood c law P key)
        (sym (run_requests-append c o code (flush_caches (x ∷ y ∷ p)) (flush_events (x ∷ y ∷ p)) s))
        (IsGood-flush_events code (x ∷ y ∷ p) (run_requests c o code (flush_caches (x ∷ y ∷ p)) s) (
          IsGood-flush_caches code (x ∷ y ∷ p) s q
            (elim t [ inl m ↦ inl (Claims-Claimed code key (x ∷ y ∷ p) m) | inr g ↦ inr g ])))
