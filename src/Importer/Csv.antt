-- ===== src/Importer/Csv.antt =====
-- csv_index and csv_read_line (dse/importer/csv.c), and _apply_samples (dse/importer/importer.c). A
-- double is its word; strtod, atoi and the comparisons of doubles are parameters. The file is what the
-- calls of fgets still give, line by line. The timestamp -1 is `none`: csv_read_line sets no other
-- negative one. A position in the vector of values stands for the pointer to a value. strtok_r cuts
-- the line that it reads, and nothing reads the cut line. The reader is not NULL.
pub mod Samples
use dse_fmi.Common.{
  ℕ, zero, suc, Bool, true, false, ◌||◌, ◌==◌, leb, if◌then◌else◌, Option, none, some, ◌>>=◌, List,
  [], ◌∷◌, ◌++◌, length, get_elem?, set, Bytes,
}

pub record CsvDesc : Type 0 where
  pub file : List Bytes
  pub line : Bytes
  pub timestamp : Option ℕ
  pub index : List ℕ

-- strtod gives a value, and `none` when it sets errno.
pub record CsvApi : Type 0 where
  pub strtod : Bytes → Option ℕ
  pub atoi : Bytes → ℕ
  pub is_valid : ℕ → Bool
  pub at_most : ℕ → ℕ → Bool

-- What a call leaves, and whether it returned true.
pub record CsvRead : Type 0 where
  pub desc : CsvDesc
  pub found : Bool

-- What a call of _apply_samples leaves: the reader and the values.
pub record Applied : Type 0 where
  pub desc : CsvDesc
  pub values : List ℕ

abbrev pub is_delimiter : ℕ → Bool
is_delimiter c = (c == 44) || (c == 59) || (c == 10)

abbrev pub finish : Bytes → List Bytes → List Bytes
finish [] rest = rest
finish (c ∷ cs) rest = (c ∷ cs) ∷ rest

-- strtok_r by ",;\n": the pieces that are not empty.
unfoldable pub fields_from : Bytes → Bytes → List Bytes
fields_from token [] = finish token []
fields_from token (c ∷ cs) =
    let ended = finish token (fields_from [] cs) in
    let longer = fields_from (token ++ c ∷ []) cs in if is_delimiter c then ended else longer

-- All but the first piece.
unfoldable pub fields : Bytes → List Bytes
unfolding fields_from
fields line = elim (fields_from [] line) [ [] ↦ [] | field ∷ rest ↦ rest ]

abbrev pub find_vr : List ℕ → ℕ → ℕ → Option ℕ
find_vr [] vr i = none
find_vr (x ∷ xs) vr i = let rest = find_vr xs vr (suc i) in if x == vr then some i else rest

module _ (api : CsvApi) where
  -- The line is the next sample if its timestamp converts and is valid.
  abbrev pub accept : CsvDesc → Bytes → List Bytes → CsvRead → Option ℕ → CsvRead
  accept c line rest next none = next
  accept c line rest next (some ts) =
      if api.is_valid ts
      then record {
        desc = record c { file = rest; line = line; timestamp = some ts };
        found = true;
      }
      else next

  unfoldable pub next_sample : CsvDesc → List Bytes → CsvRead
  next_sample c [] = record { desc = record c { file = [] }; found = false }
  next_sample c ([] ∷ rest) = next_sample (record c { line = [] }) rest
  next_sample c ((x ∷ xs) ∷ rest) =
      accept c (x ∷ xs) rest (next_sample (record c { line = x ∷ xs }) rest) (api.strtod (x ∷ xs))

  unfoldable pub csv_read_line : CsvDesc → CsvRead
  unfolding next_sample
  csv_read_line c = next_sample (record c { timestamp = none }) c.file

  -- The loop over the columns of the header; `none` is the exit with an error.
  unfoldable pub index_columns : List ℕ → List ℕ → ℕ → List Bytes → Option (List ℕ)
  index_columns rx_vr entries count [] = some entries
  index_columns rx_vr entries zero (vr ∷ rest) = some entries
  index_columns rx_vr entries (suc n) (vr ∷ rest) = do
    i ← find_vr rx_vr (api.atoi vr) 0
    index_columns rx_vr (entries ++ i ∷ []) n rest

  abbrev pub first_line : List Bytes → Bytes → Bytes
  first_line [] line = line
  first_line (x ∷ xs) line = x

  abbrev pub other_lines : List Bytes → List Bytes
  other_lines [] = []
  other_lines (x ∷ xs) = xs

  unfoldable pub csv_index : CsvDesc → List ℕ → Option CsvDesc
  unfolding index_columns fields csv_read_line
  csv_index c rx_vr = do
    entries ← index_columns rx_vr c.index (length rx_vr) (fields (first_line c.file c.line))
    some
        (csv_read_line (record c {
          file = other_lines c.file;
          line = first_line c.file c.line;
          index = entries;
        })).desc

  unfoldable pub apply_value : List ℕ → List ℕ → ℕ → Bytes → List ℕ
  apply_value index values idx field = elim (api.strtod field) [
    | none ↦ values
    | some v ↦ elim (get_elem? index idx) [ none ↦ values | some q ↦ set values q v ]
  ]

  unfoldable pub apply_fields : List ℕ → List ℕ → ℕ → List Bytes → List ℕ
  unfolding apply_value
  apply_fields index values idx [] = values
  apply_fields index values idx (field ∷ rest) =
      let after = apply_value index values idx field in
      let others = apply_fields index after (suc idx) rest in
      if leb (length index) (suc idx) then after else others

  -- The body of the loop over the lines, before the next line is read.
  unfoldable pub apply_line : List ℕ → List ℕ → Bytes → List ℕ
  unfolding apply_fields fields
  apply_line index values line = apply_fields index values 0 (fields line)

  unfoldable pub samples_loop : ℕ → ℕ → CsvDesc → List ℕ → Applied
  unfolding apply_line csv_read_line
  samples_loop zero time c values = record { desc = c; values = values }
  samples_loop (suc n) time c values =
      let after = apply_line c.index values c.line in
      let r = csv_read_line c in
      let next = samples_loop n time r.desc after in
      elim c.timestamp [
        | none ↦ record { desc = c; values = values }
        | some ts ↦
            if api.at_most ts time
            then (if r.found then next else record { desc = r.desc; values = after })
            else record { desc = c; values = values }
      ]

  -- The loop ends within one turn for each line left and one for the line at hand.
  unfoldable pub apply_samples : ℕ → CsvDesc → List ℕ → Applied
  unfolding samples_loop
  apply_samples time c values = samples_loop (suc (length c.file)) time c values
