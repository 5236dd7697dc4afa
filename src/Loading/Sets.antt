-- ===== src/Loading/Sets.antt =====
-- orm.go and bind_builder.go: the text of a set, as it is written to the database and read from it.
use trixorm.Shared.{
  ◌==◌, ◌≡◌, ◌≢◌, refl, sym, ap, ◌∙◌, false, Text, List, [], ◌∷◌, ◌++◌, append_assoc, append-nil,
  some, All,
}
use trixorm.Builder.Texts.{join, join_from}
use trixorm.Loading.{split_from, names_in}

abbrev pub HasNoComma : Text → Type 0
HasNoComma v = All (λ c. (c == b',') ≡ false) v

abbrev tails : List Text → Text
tails [] = []
tails (v ∷ vs) = b',' ∷ (v ++ tails vs)

join_from-tails : (acc : Text) (vs : List Text) → join_from acc vs ≡ acc ++ tails vs
unfolding join_from
join_from-tails acc [] = sym (append-nil acc)
join_from-tails acc (v ∷ vs) =
    join_from-tails (acc ++ (b',' ∷ v)) vs ∙ append_assoc acc (b',' ∷ v) (tails vs)

split_from-append :
    (acc v rest : Text) → HasNoComma v → split_from acc (v ++ rest) ≡ split_from (acc ++ v) rest
unfolding split_from
split_from-append acc [] rest g = ap (λ (t : Text). split_from t rest) (sym (append-nil acc))
split_from-append acc (c ∷ v) rest (g, gs) = rw g (
    split_from-append (acc ++ (c ∷ [])) v rest gs
    ∙ ap (λ (t : Text). split_from t rest) (append_assoc acc (c ∷ []) v))

split_from-tails :
    (acc : Text) (vs : List Text) → All HasNoComma vs → split_from acc (tails vs) ≡ acc ∷ vs
unfolding split_from
split_from-tails acc [] g = refl
split_from-tails acc (v ∷ vs) (g, gs) =
    ap (λ (t : List Text). acc ∷ t) (split_from-append [] v (tails vs) g ∙ split_from-tails v vs gs)

-- The text that buildSets writes of one or more names without commas, of which the first is not
-- empty, is split into just these names when deserializeStructFromDB reads it.
pub names_in-join :
    (v : Text) (vs : List Text)
    → v ≢ []
    → HasNoComma v
    → All HasNoComma vs
    → names_in (some (join (v ∷ vs))) ≡ v ∷ vs
unfolding names_in join
names_in-join [] vs ne g gs = elim (ne refl) [ ]
names_in-join (c ∷ v) vs ne g gs =
    rw (join_from-tails (c ∷ v) vs)
      (split_from-append [] (c ∷ v) (tails vs) g ∙ split_from-tails (c ∷ v) vs gs)
