-- ===== src/Pipelines/Order.antt =====
-- redis_flusher.go: in what order Flush sends the commands.
use trixorm.Shared.{
  Bool, true, false, ◌||◌, ◌≡◌, refl, sym, ap, ◌∙◌, Text, List, [], ◌∷◌, ◌++◌, map, append_assoc,
  append-nil,
}
use trixorm.Maps.{Map}
use trixorm.Pipelines.{
  Commands, Pipelines, Command, del_keys, h_set_key, set_key, x_add, Request, alone, pipeline,
  deletes_of, h_sets_of, sets_of, events_of, requests, flush_single, flush_caches, flush_events,
  flush, several,
}

-- The commands that reach Redis, one after the other.
abbrev pub sent : List (Text × Request) → List Command
sent [] = []
sent ((pool, alone c) ∷ rs) = c ∷ sent rs
sent ((pool, pipeline cs) ∷ rs) = cs ++ sent rs

pub sent-append : (a b : List (Text × Request)) → sent (a ++ b) ≡ sent a ++ sent b
sent-append [] b = refl
sent-append ((pool, alone c) ∷ a) b = ap (λ cs. c ∷ cs) (sent-append a b)
sent-append ((pool, pipeline cs) ∷ a) b =
    ap (λ t. cs ++ t) (sent-append a b) ∙ sym (append_assoc cs (sent a) (sent b))

each_alone : (pool : Text) (cs : List Command) → sent (map (λ c. (pool, alone c)) cs) ≡ cs
each_alone pool [] = refl
each_alone pool (c ∷ cs) = ap (λ t. c ∷ t) (each_alone pool cs)

-- A pipeline sends what the commands alone would.
pub sent-requests : (b : Bool) (pool : Text) (cs : List Command) → sent (requests b pool cs) ≡ cs
sent-requests true pool [] = refl
sent-requests true pool (c ∷ cs) = append-nil (c ∷ cs)
sent-requests false pool cs = each_alone pool cs

abbrev pub NoEvents : List Command → Type 0
NoEvents [] = Unit {0}
NoEvents (x_add stream e ∷ cs) = ⊥
NoEvents (_ ∷ cs) = NoEvents cs

abbrev pub NoDeletes : List Command → Type 0
NoDeletes [] = Unit {0}
NoDeletes (del_keys keys ∷ cs) = ⊥
NoDeletes (_ ∷ cs) = NoDeletes cs

NoEvents-append : (a b : List Command) → NoEvents a → NoEvents b → NoEvents (a ++ b)
NoEvents-append [] b p q = q
NoEvents-append (x_add s e ∷ a) b p q = absurd p
NoEvents-append (del_keys ks ∷ a) b p q = NoEvents-append a b p q
NoEvents-append (h_set_key k vs ∷ a) b p q = NoEvents-append a b p q
NoEvents-append (set_key k v ∷ a) b p q = NoEvents-append a b p q

NoDeletes-append : (a b : List Command) → NoDeletes a → NoDeletes b → NoDeletes (a ++ b)
NoDeletes-append [] b p q = q
NoDeletes-append (del_keys ks ∷ a) b p q = absurd p
NoDeletes-append (x_add s e ∷ a) b p q = NoDeletes-append a b p q
NoDeletes-append (h_set_key k vs ∷ a) b p q = NoDeletes-append a b p q
NoDeletes-append (set_key k v ∷ a) b p q = NoDeletes-append a b p q

deletes_NoEvents : (c : Commands) → NoEvents (deletes_of c)
unfolding deletes_of
deletes_NoEvents c =
    elim c.deletes
      as (λ ds.
        NoEvents
          (elim ds as (λ _. List Command) [ [] ↦ [] | k ∷ keys ↦ del_keys (k ∷ keys) ∷ [] ])) [
            | [] ↦ tt
            | k ∷ keys ↦ tt
          ]

h_sets_NoEvents : (m : Map (List Text)) → NoEvents (h_sets_of m)
unfolding h_sets_of
h_sets_NoEvents [] = tt
h_sets_NoEvents ((k, vs) ∷ m) = h_sets_NoEvents m

h_sets_NoDeletes : (m : Map (List Text)) → NoDeletes (h_sets_of m)
unfolding h_sets_of
h_sets_NoDeletes [] = tt
h_sets_NoDeletes ((k, vs) ∷ m) = h_sets_NoDeletes m

sets_NoEvents : (m : Map Text) → NoEvents (sets_of m)
unfolding sets_of
sets_NoEvents [] = tt
sets_NoEvents ((k, v) ∷ m) = sets_NoEvents m

sets_NoDeletes : (m : Map Text) → NoDeletes (sets_of m)
unfolding sets_of
sets_NoDeletes [] = tt
sets_NoDeletes ((k, v) ∷ m) = sets_NoDeletes m

stream_NoDeletes : (stream : Text) (es : List (List Text)) → NoDeletes (map (x_add stream) es)
stream_NoDeletes stream [] = tt
stream_NoDeletes stream (e ∷ es) = stream_NoDeletes stream es

events_NoDeletes : (m : Map (List (List Text))) → NoDeletes (events_of m)
unfolding events_of
events_NoDeletes [] = tt
events_NoDeletes ((stream, es) ∷ m) =
    NoDeletes-append (map (x_add stream) es) (events_of m) (stream_NoDeletes stream es)
      (events_NoDeletes m)

-- The commands of the pools apart from events, and the events.
abbrev pub cache_commands : Pipelines → List Command
cache_commands [] = []
cache_commands ((pool, c) ∷ p) =
    (deletes_of c ++ (h_sets_of c.h_sets ++ sets_of c.sets)) ++ cache_commands p

abbrev pub event_commands : Pipelines → List Command
event_commands [] = []
event_commands ((pool, c) ∷ p) = events_of c.events ++ event_commands p

sent-flush_caches : (p : Pipelines) → sent (flush_caches p) ≡ cache_commands p
unfolding flush_caches
sent-flush_caches [] = refl
sent-flush_caches ((pool, c) ∷ p) =
    let batched = c.use_pool || several c.diffs || several c.h_sets || several c.sets in
    let cs = deletes_of c ++ (h_sets_of c.h_sets ++ sets_of c.sets) in
    sent-append (requests batched pool cs) (flush_caches p)
    ∙ rw (sent-requests batched pool cs, sent-flush_caches p) refl

sent-flush_events : (p : Pipelines) → sent (flush_events p) ≡ event_commands p
unfolding flush_events
sent-flush_events [] = refl
sent-flush_events ((pool, c) ∷ p) =
    sent-append (requests (several c.events) pool (events_of c.events)) (flush_events p)
    ∙ rw (sent-requests (several c.events) pool (events_of c.events), sent-flush_events p) refl

caches_NoEvents : (p : Pipelines) → NoEvents (cache_commands p)
caches_NoEvents [] = tt
caches_NoEvents ((pool, c) ∷ p) =
    let puts = h_sets_of c.h_sets ++ sets_of c.sets in
    NoEvents-append (deletes_of c ++ puts) (cache_commands p)
      (NoEvents-append (deletes_of c) puts (deletes_NoEvents c) (
        NoEvents-append (h_sets_of c.h_sets) (sets_of c.sets) (h_sets_NoEvents c.h_sets)
          (sets_NoEvents c.sets)))
      (caches_NoEvents p)

events_after : (p : Pipelines) → NoDeletes (event_commands p)
events_after [] = tt
events_after ((pool, c) ∷ p) =
    NoDeletes-append (events_of c.events) (event_commands p) (events_NoDeletes c.events)
      (events_after p)

-- The commands that Flush of the redisFlusher sends, in pipelines or alone, fall into a first part
-- that sends no event and a second part that deletes no key.
pub flush-order :
    (p : Pipelines)
    → (before : List Command) × (after : List Command) × (sent (flush p) ≡ before ++ after)
      × NoEvents before
      × NoDeletes after
unfolding flush flush_single
flush-order [] = ([], [], refl, tt, tt)
flush-order ((pool, c) ∷ []) = (
  deletes_of c,
  h_sets_of c.h_sets ++ (events_of c.events ++ sets_of c.sets),
  sent-requests
      (c.use_pool || several c.diffs || several c.events || several c.h_sets || several c.sets) pool
      (deletes_of c ++ (h_sets_of c.h_sets ++ (events_of c.events ++ sets_of c.sets))),
  deletes_NoEvents c,
  NoDeletes-append (h_sets_of c.h_sets) (events_of c.events ++ sets_of c.sets)
      (h_sets_NoDeletes c.h_sets)
      (NoDeletes-append (events_of c.events) (sets_of c.sets) (events_NoDeletes c.events)
        (sets_NoDeletes c.sets)),
)
flush-order (x ∷ y ∷ p) = (
  cache_commands (x ∷ y ∷ p),
  event_commands (x ∷ y ∷ p),
  sent-append (flush_caches (x ∷ y ∷ p)) (flush_events (x ∷ y ∷ p))
      ∙ rw (sent-flush_caches (x ∷ y ∷ p), sent-flush_events (x ∷ y ∷ p)) refl,
  caches_NoEvents (x ∷ y ∷ p),
  events_after (x ∷ y ∷ p),
)
