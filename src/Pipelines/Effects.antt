-- ===== src/Pipelines/Effects.antt =====
-- redis_flusher.go: what the commands do to the entries of a Redis pool that is used as a cache.
use trixorm.Shared.{
  Bool, true, false, ◌≡◌, refl, sym, ◌∙◌, Text, text_eq, if◌then◌else◌, List, [], ◌∷◌, ◌++◌, map,
}
use trixorm.Cache.{Cache, Fades, see, remove_many}
use trixorm.Pipelines.{
  Command, del_keys, h_set_key, set_key, x_add, Request, alone, pipeline, requests,
}

-- Hashes and streams are other types of values in the same Redis.
pub record Others (c : Cache Text) : Type 0 where
  pub run_h_set : Text → List Text → c.State → c.State
  pub run_x_add : Text → List Text → c.State → c.State

-- They make no entry of the cache.
pub record IsOthers {c : Cache Text} (o : Others c) : Type 0 where
  pub h_set_Fades :
      (k j : Text) (vs : List Text) (s : c.State) → Fades (see c j (o.run_h_set k vs s)) (see c j s)
  pub x_add_Fades :
      (k j : Text) (e : List Text) (s : c.State) → Fades (see c j (o.run_x_add k e s)) (see c j s)

module _ (c : Cache Text) (o : Others c) where
  unfoldable pub run_commands : List Command → c.State → c.State
  run_commands [] s = s
  run_commands (del_keys ks ∷ cs) s = run_commands cs (remove_many c ks s)
  run_commands (set_key k v ∷ cs) s = run_commands cs (c.set 0 k v s)
  run_commands (h_set_key k vs ∷ cs) s = run_commands cs (o.run_h_set k vs s)
  run_commands (x_add k e ∷ cs) s = run_commands cs (o.run_x_add k e s)

  commands_in : Request → List Command
  commands_in (alone d) = d ∷ []
  commands_in (pipeline ds) = ds

  -- The requests that go to one pool.
  unfoldable pub run_requests : Text → List (Text × Request) → c.State → c.State
  unfolding run_commands commands_in
  run_requests code [] s = s
  run_requests code ((pool, r) ∷ rs) s =
      run_requests code rs (if text_eq pool code then run_commands (commands_in r) s else s)

  run_commands-append :
      (a b : List Command) (s : c.State)
      → run_commands (a ++ b) s ≡ run_commands b (run_commands a s)
  unfolding run_commands
  run_commands-append [] b s = refl
  run_commands-append (del_keys ks ∷ a) b s = run_commands-append a b (remove_many c ks s)
  run_commands-append (set_key k v ∷ a) b s = run_commands-append a b (c.set 0 k v s)
  run_commands-append (h_set_key k vs ∷ a) b s = run_commands-append a b (o.run_h_set k vs s)
  run_commands-append (x_add k e ∷ a) b s = run_commands-append a b (o.run_x_add k e s)

  pub run_requests-append :
      (code : Text) (a b : List (Text × Request)) (s : c.State)
      → run_requests code (a ++ b) s ≡ run_requests code b (run_requests code a s)
  unfolding run_requests
  run_requests-append code [] b s = refl
  run_requests-append code ((pool, r) ∷ a) b s = run_requests-append code a b _

  no_choice : (b : Bool) (s : c.State) → (if b then s else s) ≡ s
  no_choice true s = refl
  no_choice false s = refl

  one_more :
      (b : Bool) (d : Command) (cs : List Command) (s : c.State)
      → (if b
          then run_commands cs (if b then run_commands (d ∷ []) s else s)
          else (if b then run_commands (d ∷ []) s else s))
        ≡ (if b then run_commands (d ∷ cs) s else s)
  one_more true d cs s = sym (run_commands-append (d ∷ []) cs s)
  one_more false d cs s = refl

  run_alone :
      (code pool : Text) (cs : List Command) (s : c.State)
      → run_requests code (map (λ d. (pool, alone d)) cs) s
        ≡ (if text_eq pool code then run_commands cs s else s)
  unfolding run_requests run_commands commands_in
  run_alone code pool [] s = sym (no_choice (text_eq pool code) s)
  run_alone code pool (d ∷ cs) s = run_alone code pool cs _ ∙ one_more (text_eq pool code) d cs s

  -- It makes no difference whether commands are sent in a pipeline.
  pub run_requests-requests :
      (b : Bool) (code pool : Text) (cs : List Command) (s : c.State)
      → run_requests code (requests b pool cs) s
        ≡ (if text_eq pool code then run_commands cs s else s)
  unfolding run_requests commands_in run_commands
  run_requests-requests false code pool cs s = run_alone code pool cs s
  run_requests-requests true code pool [] s = run_alone code pool [] s
  run_requests-requests true code pool (d ∷ cs) s = refl
