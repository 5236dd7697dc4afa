-- ===== src/Pipelines/Growing.antt =====
-- redis_flusher.go: what stays when more commands are collected.
use trixorm.Shared.{
  Bool, true, false, ◌≡◌, refl, sym, ap, ◌∙◌, inl, inr, Text, text_eq, text_eq_self, text_eq→eq,
  Bool-cases, if◌then◌else◌, arith, List, [], ◌∷◌, Option, some,
}
use mathlib.Core.Path.{subst}
use trixorm.Maps.{Map, find, assign, find-assign}
use trixorm.Cache.Touching.{Among, Among-left, Among-right, AmongKeys, Permitted}
use trixorm.Pipelines.{
  Commands, Pipelines, or_none, commands_of, add_deletes, add_set, add_event, create_event_slice,
  del, set, publish,
}
use trixorm.Pipelines.Settled.{Claims, PermittedPools}

both :
    {A : Type 0} (Q : A → Type 0) (b : Bool) (x y : A)
    → Q x
    → (b ≡ false → Q y)
    → Q (if b then x else y)
both Q true x y p q = p
both Q false x y p q = q refl

push :
    (b : Bool) (c : Commands) (o : Option Commands)
    → or_none (if b then some c else o) ≡ (if b then c else or_none o)
push true c o = refl
push false c o = refl

pick :
    (P : Text → Text → Type 0) (b : Bool) (c : Commands) (o : Option Commands)
    → Permitted P c.sets
    → Permitted P (or_none o).sets
    → Permitted P (or_none (if b then some c else o)).sets
pick P true c o q r = q
pick P false c o q r = r

module _ (P : Text → Text → Type 0) where
  commands-Permitted :
      (pool : Text) (p : Pipelines) → PermittedPools P p → Permitted P (commands_of pool p).sets
  unfolding find
  commands-Permitted pool [] q = tt
  commands-Permitted pool ((j, c) ∷ p) (q, qs) =
      pick P (text_eq j pool) c (find pool p) q (commands-Permitted pool p qs)

  assign-Permitted :
      (pool : Text) (c : Commands) (p : Pipelines)
      → PermittedPools P p
      → Permitted P c.sets
      → PermittedPools P (assign pool c p)
  unfolding assign
  assign-Permitted pool c [] qs q = (q, tt)
  assign-Permitted pool c ((j, d) ∷ p) (r, qs) q =
      both (PermittedPools P) (text_eq j pool) ((j, c) ∷ p) ((j, d) ∷ assign pool c p) (q, qs)
        (λ _. (r, assign-Permitted pool c p qs q))

  set-Permitted : (k v : Text) (m : Map Text) → P k v → Permitted P m → Permitted P (assign k v m)
  unfolding assign
  set-Permitted k v [] p q = (p, tt)
  set-Permitted k v ((j, w) ∷ m) p (q, qs) = elim (Bool-cases (text_eq j k)) [
    | inl e ↦ rw e (subst (λ (i : Text). P i v) (sym (text_eq→eq j k e)) p, qs)
    | inr e ↦ rw e (q, set-Permitted k v m p qs)
  ]

  -- Nothing that is permitted or claimed is lost.
  abbrev pub Retains : Pipelines → Pipelines → Type 0
  Retains p p' =
      (PermittedPools P p → PermittedPools P p')
      × ((code key : Text) → Claims key (commands_of code p) → Claims key (commands_of code p'))

  commands_of-assign :
      (k j : Text) (c : Commands) (p : Pipelines)
      → commands_of j (assign k c p) ≡ (if text_eq k j then c else commands_of j p)
  commands_of-assign k j c p = ap or_none (find-assign k j c p) ∙ push (text_eq k j) c (find j p)

  Retains-assign :
      (pool : Text) (c : Commands) (p : Pipelines)
      → (Permitted P (commands_of pool p).sets → Permitted P c.sets)
      → ((key : Text) → Claims key (commands_of pool p) → Claims key c)
      → Retains p (assign pool c p)
  Retains-assign pool c p f g = (
    λ q. assign-Permitted pool c p q (f (commands-Permitted pool p q)),
    λ code key t.
        subst (Claims key) (sym (commands_of-assign pool code c p))
          (elim (Bool-cases (text_eq pool code)) [
            | inl e ↦ rw e (
                g key (
                  subst (λ (j : Text). Claims key (commands_of j p)) (sym (text_eq→eq pool code e))
                    t))
            | inr e ↦ rw e t
          ]),
  )

  Claims-assigned :
      (pool key : Text) (c : Commands) (p : Pipelines)
      → Claims key c
      → Claims key (commands_of pool (assign pool c p))
  Claims-assigned pool key c p t =
      subst (Claims key) (sym (commands_of-assign pool pool c p)) (rw (text_eq_self pool) t)

  pub Retains-del : (pool : Text) (keys : List Text) (p : Pipelines) → Retains p (del pool keys p)
  unfolding del add_deletes
  Retains-del pool [] p = (λ q. q, λ code key t. t)
  Retains-del pool (k ∷ keys) p =
      Retains-assign pool (add_deletes (k ∷ keys) (commands_of pool p)) p (λ q. q)
        λ key t. elim t [
          | inl m ↦ inl (Among-left key (commands_of pool p).deletes (k ∷ keys) m)
          | inr m ↦ inr m
        ]

  pub del-Claims :
      (pool key : Text) (keys : List Text) (p : Pipelines)
      → Among key keys
      → Claims key (commands_of pool (del pool keys p))
  unfolding del add_deletes
  del-Claims pool key [] p m = absurd m
  del-Claims pool key (k ∷ keys) p m =
      Claims-assigned pool key (add_deletes (k ∷ keys) (commands_of pool p)) p
        (inl (Among-right key (commands_of pool p).deletes (k ∷ keys) m))

  keys-assign : (k v key : Text) (m : Map Text) → AmongKeys key m → AmongKeys key (assign k v m)
  unfolding assign
  keys-assign k v key [] t = absurd t
  keys-assign k v key ((j, w) ∷ m) t =
      both (AmongKeys key) (text_eq j k) ((j, v) ∷ m) ((j, w) ∷ assign k v m) t
        (λ _. elim t [ inl e ↦ inl e | inr n ↦ inr (keys-assign k v key m n) ])

  key-assign : (k v : Text) (m : Map Text) → AmongKeys k (assign k v m)
  unfolding assign
  key-assign k v [] = inl refl
  key-assign k v ((j, w) ∷ m) = elim (Bool-cases (text_eq j k)) [
    | inl e ↦ rw e (inl (text_eq→eq j k e))
    | inr e ↦ rw e (inr (key-assign k v m))
  ]

  pub Retains-set : (pool k v : Text) (p : Pipelines) → P k v → Retains p (set pool k v p)
  unfolding set add_set
  Retains-set pool k v p q =
      Retains-assign pool (add_set k v (commands_of pool p)) p
        (λ r. set-Permitted k v (commands_of pool p).sets q r)
        λ key t. elim t [
          | inl m ↦ inl m
          | inr m ↦ inr (keys-assign k v key (commands_of pool p).sets m)
        ]

  pub set-Claims : (pool k v : Text) (p : Pipelines) → Claims k (commands_of pool (set pool k v p))
  unfolding set add_set
  set-Claims pool k v p =
      Claims-assigned pool k (add_set k v (commands_of pool p)) p
        (inr (key-assign k v (commands_of pool p).sets))

  event_sets : (stream : Text) (e : List Text) (c : Commands) → (add_event stream e c).sets ≡ c.sets
  unfolding add_event
  event_sets stream e c = ground arith

  event_deletes :
      (stream : Text) (e : List Text) (c : Commands) → (add_event stream e c).deletes ≡ c.deletes
  unfolding add_event
  event_deletes stream e c = ground arith

  pub Retains-publish :
      (stream_pool : Text → Text) (stream : Text) (body : Option Text) (meta : List Text)
      (p : Pipelines)
      → Retains p (publish stream_pool stream body meta p)
  unfolding publish
  Retains-publish stream_pool stream body meta p =
      let c = commands_of (stream_pool stream) p in
      let event = create_event_slice body meta in
      Retains-assign (stream_pool stream) (add_event stream event c) p
        (λ r. subst (Permitted P) (sym (event_sets stream event c)) r)
        λ key t. elim t [
          | inl m ↦ inl (subst (Among key) (sym (event_deletes stream event c)) m)
          | inr m ↦ inr (subst (AmongKeys key) (sym (event_sets stream event c)) m)
        ]

  pub Retains-trans : (p q r : Pipelines) → Retains p q → Retains q r → Retains p r
  Retains-trans p q r (a, b) (c, d) = (λ x. c (a x), λ code key t. d code key (b code key t))
