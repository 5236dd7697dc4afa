-- ===== src/RedisSearch/Collected.antt =====
-- redis_search.go: one map of filters, and the calls that have filled it.
use trixorm.Shared.{
  if◌then◌else◌, Text, text_eq, text_eq→eq, Option, none, some, List, [], ◌∷◌, ◌++◌, ◌≡◌, refl, ap,
  ◌∙◌, Bool-cases, inl, inr, append_assoc, append-nil, sym,
}
use trixorm.Maps.{Map, find, find-assign}
use trixorm.RedisSearch.Query.{append_at, slice_at}
use trixorm.RedisSearch.Log.{Entry, Log, collect, first_uses, has_text}

-- A nil slice is not in the map.
abbrev pub if_some : {V : Type 0} → List V → Option (List V)
if_some [] = none
if_some (v ∷ vs) = some (v ∷ vs)

module _ {V : Type 0} (pick : Entry → List V) where
  -- The map holds what the entries of one kind ask for.
  unfoldable pub Collects : Map (List V) → Log → Type 0
  Collects m log = (f : Text) → find f m ≡ if_some (collect pick f log)

  pub collect-append :
      (f g : Text) (e : Entry) (log : Log)
      → collect pick f (log ++ (g, e) ∷ [])
        ≡ collect pick f log ++ (if text_eq g f then pick e else [])
  unfolding collect
  collect-append f g e [] = elim (Bool-cases (text_eq g f)) [
    | inl h ↦ rw h (append-nil (pick e))
    | inr h ↦ rw h refl
  ]
  collect-append f g e ((k, d) ∷ log) = elim (Bool-cases (text_eq k f)) [
    | inl h ↦
        rw (h, collect-append f g e log)
          (sym (append_assoc (pick d) (collect pick f log) (if text_eq g f then pick e else [])))
    | inr h ↦ rw (h, collect-append f g e log) refl
  ]

  pub Collects-other :
      (m : Map (List V)) (log : Log) (g : Text) (e : Entry)
      → pick e ≡ []
      → Collects m log
      → Collects m (log ++ (g, e) ∷ [])
  unfolding Collects
  Collects-other m log g e h c f =
      c f
      ∙ ap if_some (
          sym (
            collect-append f g e log ∙ elim (Bool-cases (text_eq g f)) [
              | inl i ↦ rw (i, h) (append-nil (collect pick f log))
              | inr i ↦ rw i (append-nil (collect pick f log))
            ]))

  pub slice_at-if_some :
      (o : Option (List V)) (vs : List V)
      → o ≡ if_some vs
      → (elim o as (λ _. List V) [ none ↦ [] | some ws ↦ ws ]) ≡ vs
  slice_at-if_some o [] h = rw h refl
  slice_at-if_some o (v ∷ vs) h = rw h refl

  pub if_some-append : (vs : List V) (v : V) → if_some (vs ++ v ∷ []) ≡ some (vs ++ v ∷ [])
  if_some-append [] v = refl
  if_some-append (w ∷ vs) v = refl

  pub Collects-append_at :
      (m : Map (List V)) (log : Log) (g : Text) (e : Entry) (v : V)
      → pick e ≡ v ∷ []
      → Collects m log
      → Collects (append_at g v m) (log ++ (g, e) ∷ [])
  unfolding Collects append_at
  Collects-append_at m log g e v h c f = elim (Bool-cases (text_eq g f)) [
    | inl i ↦
        let same : g ≡ f = text_eq→eq g f i in
        find-assign g f (slice_at g m ++ v ∷ []) m
        ∙ rw (i, collect-append f g e log, i, h, if_some-append (collect pick f log) v)
            (ap (λ (vs : List V). some (vs ++ v ∷ []))
              (slice_at-if_some (find g m) (collect pick f log) (rw same (c f))))
    | inr i ↦
        find-assign g f (slice_at g m ++ v ∷ []) m
        ∙ rw (i, collect-append f g e log, i, append-nil (collect pick f log)) (c f)
  ]

pub first_uses-append :
    (seen : List Text) (g : Text) (e : Entry) (log : Log)
    → first_uses seen (log ++ (g, e) ∷ []) ≡ (
        if has_text g (first_uses seen log)
        then first_uses seen log
        else first_uses seen log ++ g ∷ [])
unfolding first_uses
first_uses-append seen g e [] = refl
first_uses-append seen g e ((f, d) ∷ log) =
    first_uses-append (if has_text f seen then seen else seen ++ f ∷ []) g e log
