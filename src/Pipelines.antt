-- ===== src/Pipelines.antt =====
-- redis_flusher.go: the commands for Redis that a flush collects, by the code of the pool.
pub mod Order
pub mod Effects
pub mod Settled
pub mod Growing
use trixorm.Shared.{
  ℕ, suc, ◌==◌, ltb, Bool, true, false, ◌||◌, if◌then◌else◌, Text, Option, none, some, List, [],
  ◌∷◌, ◌++◌, map, length,
}
use trixorm.Maps.{Map, find, assign}

abbrev pub command_delete : ℕ
command_delete = 0

abbrev pub command_x_add : ℕ
command_x_add = 1

abbrev pub command_h_set : ℕ
command_h_set = 2

abbrev pub command_set : ℕ
command_set = 3

-- `diffs` is the set of the kinds of commands that are there. A nil slice or map is empty.
pub record Commands : Type 0 where
  pub diffs : List ℕ
  pub use_pool : Bool
  pub deletes : List Text
  pub h_sets : Map (List Text)
  pub sets : Map Text
  pub events : Map (List (List Text))

-- `m[k] = true`
unfoldable pub include : ℕ → List ℕ → List ℕ
include k [] = k ∷ []
include k (j ∷ ks) = let rest = j ∷ include k ks in if j == k then j ∷ ks else rest

abbrev pub no_commands : Commands
no_commands = record {
  diffs = [];
  use_pool = false;
  deletes = [];
  h_sets = [];
  sets = [];
  events = [];
}

abbrev pub Pipelines : Type 0
Pipelines = Map Commands

-- The commands of a pool, none where the pool has none yet.
abbrev pub or_none : Option Commands → Commands
or_none none = no_commands
or_none (some c) = c

abbrev pub commands_of : Text → Pipelines → Commands
commands_of pool p = or_none (find pool p)

unfoldable pub add_deletes : List Text → Commands → Commands
unfolding include
add_deletes keys c = record c {
  diffs = include command_delete c.diffs;
  deletes = c.deletes ++ keys;
}

unfoldable pub add_set : Text → Text → Commands → Commands
unfolding include
add_set key v c = record c { diffs = include command_set c.diffs; sets = assign key v c.sets }

unfoldable pub add_h_set : Text → List Text → Commands → Commands
unfolding include
add_h_set key values c =
    let before = elim (find key c.h_sets) as (λ o. List Text) [ none ↦ [] | some vs ↦ vs ] in
    record c {
      diffs = include command_h_set c.diffs;
      h_sets = assign key (before ++ values) c.h_sets;
    }

-- Two events of one stream make a pipeline worth while.
unfoldable pub add_event : Text → List Text → Commands → Commands
unfolding include
add_event stream event c =
    let diffs = include command_x_add c.diffs in
    elim (find stream c.events) [
      | none ↦ record c { diffs = diffs; events = assign stream (event ∷ []) c.events }
      | some es ↦ record c {
        diffs = diffs;
        events = assign stream (es ++ event ∷ []) c.events;
        use_pool = true;
      }
    ]

unfoldable pub del : Text → List Text → Pipelines → Pipelines
unfolding add_deletes
del pool [] p = p
del pool (k ∷ keys) p = assign pool (add_deletes (k ∷ keys) (commands_of pool p)) p

unfoldable pub set : Text → Text → Text → Pipelines → Pipelines
unfolding add_set
set pool key v p = assign pool (add_set key v (commands_of pool p)) p

unfoldable pub h_set : Text → Text → List Text → Pipelines → Pipelines
unfolding add_h_set
h_set pool key values p = assign pool (add_h_set key values (commands_of pool p)) p

-- createEventSlice, with the body as msgpack writes it.
unfoldable pub create_event_slice : Option Text → List Text → List Text
create_event_slice none meta = meta
create_event_slice (some body) meta = (b's' ∷ []) ∷ body ∷ meta

-- Publish. `stream_pool` is the pool that getRedisForStream finds for a stream.
unfoldable pub publish : (Text → Text) → Text → Option Text → List Text → Pipelines → Pipelines
unfolding add_event create_event_slice
publish stream_pool stream body meta p =
    let pool = stream_pool stream in
    assign pool (add_event stream (create_event_slice body meta) (commands_of pool p)) p

pub data Command : Type 0 where
  del_keys : List Text → Command
  h_set_key : Text → List Text → Command
  set_key : Text → Text → Command
  x_add : Text → List Text → Command

-- What goes to Redis at once: a command alone, or a pipeline.
pub data Request : Type 0 where
  alone : Command → Request
  pipeline : List Command → Request

unfoldable pub deletes_of : Commands → List Command
deletes_of c = elim c.deletes [ [] ↦ [] | k ∷ keys ↦ del_keys (k ∷ keys) ∷ [] ]

unfoldable pub h_sets_of : Map (List Text) → List Command
h_sets_of [] = []
h_sets_of ((key, values) ∷ m) = h_set_key key values ∷ h_sets_of m

unfoldable pub sets_of : Map Text → List Command
sets_of [] = []
sets_of ((key, v) ∷ m) = set_key key v ∷ sets_of m

unfoldable pub events_of : Map (List (List Text)) → List Command
events_of [] = []
events_of ((stream, es) ∷ m) = map (x_add stream) es ++ events_of m

-- The commands in a pipeline, which is not sent if it is empty, or each alone.
abbrev pub requests : Bool → Text → List Command → List (Text × Request)
requests true pool [] = []
requests true pool (c ∷ cs) = (pool, pipeline (c ∷ cs)) ∷ []
requests false pool cs = map (λ c. (pool, alone c)) cs

abbrev pub several : {A : Type 0} → List A → Bool
several xs = ltb 1 (length xs)

-- The only pool: with its events before its sets.
unfoldable pub flush_single : Text → Commands → List (Text × Request)
unfolding deletes_of h_sets_of sets_of events_of
flush_single pool c =
    requests
      (c.use_pool || several c.diffs || several c.events || several c.h_sets || several c.sets) pool
      (deletes_of c ++ (h_sets_of c.h_sets ++ (events_of c.events ++ sets_of c.sets)))

-- Several pools: first everything but the events, then the events.
unfoldable pub flush_caches : Pipelines → List (Text × Request)
unfolding deletes_of h_sets_of sets_of
flush_caches [] = []
flush_caches ((pool, c) ∷ p) =
    requests (c.use_pool || several c.diffs || several c.h_sets || several c.sets) pool
      (deletes_of c ++ (h_sets_of c.h_sets ++ sets_of c.sets))
    ++ flush_caches p

unfoldable pub flush_events : Pipelines → List (Text × Request)
unfolding events_of
flush_events [] = []
flush_events ((pool, c) ∷ p) =
    requests (several c.events) pool (events_of c.events) ++ flush_events p

-- Flush. Go's order over the pools, keys and streams is not fixed; here it is the order in which
-- they came.
unfoldable pub flush : Pipelines → List (Text × Request)
unfolding flush_single flush_caches flush_events
flush [] = []
flush ((pool, c) ∷ []) = flush_single pool c
flush (x ∷ y ∷ p) = flush_caches (x ∷ y ∷ p) ++ flush_events (x ∷ y ∷ p)
