-- ===== src/Serializer/Reading.antt =====
-- What it means that a reader takes certain bytes for a value, with the rule for two readers in a row.
use trixorm.Shared.{ℕ, ◌≡◌, refl, ◌∙◌, ap, [], ◌++◌, append_assoc, Text, ok}
use trixorm.Serializer.{Serializer, Reader, ◌>>=◌, return}

abbrev pub at : ℕ → Text → Serializer
at c bs = record { scratch = c; buffer = bs }

-- With `bytes` in front the reader `m` returns `a`, and leaves the bytes that follow.
abbrev pub Reads : {A : Type 0} → Reader A → Text → A → Type 0
Reads m bytes a = (c : ℕ) (rest : Text) → (c' : ℕ) × (m (at c (bytes ++ rest)) ≡ ok (a, at c' rest))

pub Reads-return : {A : Type 0} (a : A) → Reads (return a) [] a
Reads-return a c rest = (c, refl)

pub Reads-bind :
    {A B : Type 0} (m : Reader A) (f : A → Reader B) (bs cs : Text) (a : A) (b : B)
    → Reads m bs a
    → Reads (f a) cs b
    → Reads (m >>= f) (bs ++ cs) b
Reads-bind m f bs cs a b h k c rest =
    let (c1, e1) = h c (cs ++ rest) in
    let (c2, e2) = k c1 rest in (c2, rw (append_assoc bs cs rest, e1) e2)

-- The second reader may take nothing.
pub Reads-map :
    {A B : Type 0} (m : Reader A) (f : A → B) (bs : Text) (a : A)
    → Reads m bs a
    → Reads (m >>= λ x. return (f x)) bs (f a)
Reads-map m f bs a h c rest = let (c1, e1) = h c rest in (c1, rw e1)

pub Reads-eq :
    {A : Type 0} (m : Reader A) (bs : Text) {a b : A} → a ≡ b → Reads m bs a → Reads m bs b
Reads-eq m bs e h c rest = let (c1, e1) = h c rest in (c1, e1 ∙ ap (λ x. ok (x, at c1 rest)) e)
