-- ===== src/Examples/Loads.antt =====
-- orm.go: the row of the database that belongs to the entity of the examples.
use trixorm.Shared.{
  ℕ, inr, ◌+◌, ◌-◌, ◌*◌, ◌==◌, ◌||◌, ◌≡◌, refl, true, false, if◌then◌else◌, Text, none, some, List,
  [], ◌∷◌, arith, text_eq,
}
use trixorm.Int64.{pos, negsuc, add64, to_bits, of_bits}
use trixorm.Enum.{index, lookup}
use trixorm.Schema.{columns}
use trixorm.Entity.{Row}
use trixorm.Loading.{ScannedRow, names_in, split_from}
use trixorm.Builder.Texts.{join}
use trixorm.Loading.Sets.{names_in-join}
use trixorm.Loading.Saved.{RepresentsRow}
use trixorm.Examples.Sample.{sample, sample_fields, sample_row}

-- The ids of a JSON array of numbers, behind the digits of `n`.
abbrev pub ids_from : ℕ → Text → List ℕ
ids_from n [] = []
ids_from n (c ∷ s) =
    let next = n ∷ ids_from 0 s in
    let start = ids_from 0 s in
    let more = ids_from (n * 10 + (c - 48)) s in
    if c == b',' || c == b']' then next else if c == b'[' then start else more

abbrev pub saved : Row sample (columns sample_fields)
saved = sample_row 63713433600 (b'a' ∷ [])

-- The server is one hour ahead.
abbrev pub scanned : ScannedRow sample (columns sample_fields)
unfolding columns
scanned = (
  some (pos 4),
  (
    7,
    (
      300,
      (
        negsuc 41,
        (
          true,
          (
            true,
            (
              pos 63745059600,
              (
                some (b'a' ∷ []),
                (
                  some (pos 9),
                  (
                    none,
                    (
                      some (b'g' ∷ b'r' ∷ b'e' ∷ b'e' ∷ b'n' ∷ []),
                      (
                        some (b'r' ∷ b'e' ∷ b'd' ∷ b',' ∷ b'g' ∷ b'r' ∷ b'e' ∷ b'e' ∷ b'n' ∷ []),
                        (
                          some false,
                          (
                            some true,
                            (
                              none,
                              (
                                some (b'"' ∷ b'x' ∷ []),
                                (
                                  some (b'[' ∷ b'1' ∷ b',' ∷ b'1' ∷ b'2' ∷ b']' ∷ []),
                                  (negsuc 2, (some (b'r' ∷ b'a' ∷ b'w' ∷ []), (tt))),
                                ),
                              ),
                            ),
                          ),
                        ),
                      ),
                    ),
                  ),
                ),
              ),
            ),
          ),
        ),
      ),
    ),
  ),
)

pub scanned-Represents :
    RepresentsRow sample (ids_from 0) (pos 3600) (columns sample_fields) scanned saved
unfolding columns add64 to_bits of_bits names_in split_from index lookup text_eq
scanned-Represents = (
  refl,
  (
    refl,
    (
      refl,
      (
        refl,
        (
          refl,
          (
            refl,
            (
              ((omega arith, inr refl), refl),
              (
                refl,
                (
                  refl,
                  (
                    refl,
                    (
                      (refl, refl),
                      (refl, (refl, (refl, (tt, (refl, (refl, (refl, (refl, (tt))))))))),
                    ),
                  ),
                ),
              ),
            ),
          ),
        ),
      ),
    ),
  ),
)

names_in-join_example :
    names_in (some (join ((b'a' ∷ b'b' ∷ []) ∷ (b'c' ∷ []) ∷ [])))
    ≡ (b'a' ∷ b'b' ∷ []) ∷ (b'c' ∷ []) ∷ []
names_in-join_example =
    names_in-join (b'a' ∷ b'b' ∷ []) ((b'c' ∷ []) ∷ []) (λ e. cc) (refl, (refl, tt))
      ((refl, tt), tt)
